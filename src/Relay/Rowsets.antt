-- ===== src/Relay/Rowsets.antt =====
-- crates/relay/src/native_store.rs: what its statements do to the rows of the table of groups.
use glacialcast.Prelude.{
  suc, ◌≤◌, ◌≡◌, refl, sym, ap, ◌∙◌, subst, ◌⊎◌, inl, inr, Bool, false, List, [], ◌∷◌, map, length,
  All, Distinct, arith, Bool-cases,
}
use glacialcast.Relay.Rows.{GroupKey, GroupRow}
use glacialcast.Relay.Statements.{select, delete_one, of_group, bytes_where}
use glacialcast.Relay.Selections.{In, same_key_refl, same_key_sound}

-- Deleting the row of a key that is there.
pub length-delete_one :
    (rows : List GroupRow) (g : GroupRow)
    → In g rows
    → suc (length (delete_one (of_group g.key) rows)) ≡ length rows
unfolding delete_one
length-delete_one [] g there = absurd there
length-delete_one (r ∷ rows) g there = elim (Bool-cases (of_group g.key r)) [
  | inl t ↦ rw t
  | inr f ↦ rw f (elim there [
    | inl same ↦ absurd (cc (sym (same_key_refl g.key) ∙ ap (of_group g.key) same ∙ f))
    | inr later ↦ ap suc (length-delete_one rows g later)
  ])
]

pub bytes_where-delete_one :
    (matches : GroupRow → Bool) (key : GroupKey) (rows : List GroupRow)
    → bytes_where matches (delete_one (of_group key) rows) ≤ bytes_where matches rows
unfolding delete_one bytes_where
bytes_where-delete_one matches key [] = omega arith
bytes_where-delete_one matches key (r ∷ rows) =
    ground (arith, bytes_where-delete_one matches key rows)

abbrev pub keys : List GroupRow → List GroupKey
keys rows = map (λ (g : GroupRow). g.key) rows

All-keys :
    (P : GroupKey → Type 0) (rows : List GroupRow) (g : GroupRow)
    → All P (keys rows)
    → In g rows
    → P g.key
All-keys P [] g all there = absurd there
All-keys P (r ∷ rows) g all there = elim there [
  | inl same ↦ subst P (ap (λ (x : GroupRow). x.key) (sym same)) all.0
  | inr later ↦ All-keys P rows g all.1 later
]

delete_one-All :
    (P : GroupKey → Type 0) (key : GroupKey) (rows : List GroupRow)
    → All P (keys rows)
    → All P (keys (delete_one (of_group key) rows))
unfolding delete_one
delete_one-All P key [] all = tt
delete_one-All P key (r ∷ rows) all = elim (Bool-cases (of_group key r)) [
  | inl t ↦ rw t all.1
  | inr f ↦ rw f (all.0, delete_one-All P key rows all.1)
]

pub delete_one-Distinct :
    (key : GroupKey) (rows : List GroupRow)
    → Distinct (keys rows)
    → Distinct (keys (delete_one (of_group key) rows))
unfolding delete_one
delete_one-Distinct key [] distinct = tt
delete_one-Distinct key (r ∷ rows) distinct = elim (Bool-cases (of_group key r)) [
  | inl t ↦ rw t distinct.1
  | inr f ↦ rw f (delete_one-All _ key rows distinct.0, delete_one-Distinct key rows distinct.1)
]

-- What a deletion leaves alone: rows that the deleted one is not among.
pub select-delete_one :
    (matches : GroupRow → Bool) (rows : List GroupRow) (g : GroupRow)
    → Distinct (keys rows)
    → In g rows
    → matches g ≡ false
    → select matches (delete_one (of_group g.key) rows) ≡ select matches rows
unfolding select delete_one
select-delete_one matches [] g distinct there out = absurd there
select-delete_one matches (r ∷ rows) g distinct there out = elim there [
  | inl same ↦
      rw (sym (ap (of_group g.key) same) ∙ same_key_refl g.key, ap matches (sym same) ∙ out) refl
  | inr later ↦ elim (Bool-cases (of_group g.key r)) [
    | inl t ↦ absurd (All-keys (λ k. r.key ≡ k → ⊥) rows g distinct.0 later (same_key_sound _ _ t))
    | inr f ↦ rw (f, select-delete_one matches rows g distinct.1 later out) refl
  ]
]

pub In-delete_one :
    (key : GroupKey) (rows : List GroupRow) (g : GroupRow)
    → In g (delete_one (of_group key) rows)
    → In g rows
unfolding delete_one
In-delete_one key [] g there = there
In-delete_one key (r ∷ rows) g there = elim (Bool-cases (of_group key r)) [
  | inl t ↦ inr (rw t at there)
  | inr f ↦
      let stays : (g ≡ r) ⊎ In g (delete_one (of_group key) rows) = rw f at there in
      elim stays [ inl same ↦ inl same | inr later ↦ inr (In-delete_one key rows g later) ]
]

pub delete_one-In :
    (key : GroupKey) (rows : List GroupRow) (g : GroupRow)
    → In g rows
    → of_group key g ≡ false
    → In g (delete_one (of_group key) rows)
unfolding delete_one
delete_one-In key [] g there other = there
delete_one-In key (r ∷ rows) g there other = elim (Bool-cases (of_group key r)) [
  | inl t ↦ rw t (elim there [
    | inl same ↦ absurd (cc (sym t ∙ ap (of_group key) (sym same) ∙ other))
    | inr later ↦ later
  ])
  | inr f ↦
      rw f (elim there [
        | inl same ↦ inl same
        | inr later ↦ inr (delete_one-In key rows g later other)
      ])
]

pub row_of_key :
    (rows : List GroupRow) (a b : GroupRow)
    → Distinct (keys rows)
    → In a rows
    → In b rows
    → a.key ≡ b.key
    → a ≡ b
row_of_key [] a b distinct of_a of_b same = absurd of_a
row_of_key (r ∷ rows) a b distinct of_a of_b same = elim of_a [
  | inl first_a ↦ elim of_b [
    | inl first_b ↦ first_a ∙ sym first_b
    | inr later_b ↦ absurd (
        All-keys (λ k. r.key ≡ k → ⊥) rows b distinct.0 later_b
          (ap (λ (g : GroupRow). g.key) (sym first_a) ∙ same))
  ]
  | inr later_a ↦ elim of_b [
    | inl first_b ↦ absurd (
        All-keys (λ k. r.key ≡ k → ⊥) rows a distinct.0 later_a
          (ap (λ (g : GroupRow). g.key) (sym first_b) ∙ sym same))
    | inr later_b ↦ row_of_key rows a b distinct.1 later_a later_b same
  ]
]
