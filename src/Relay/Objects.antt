-- ===== src/Relay/Objects.antt =====
-- crates/relay/src/native_store.rs: the rows of objects that an append leaves.
use glacialcast.Prelude.{
  ◌≡◌, refl, sym, ap, ◌∙◌, ◌⊎◌, inl, inr, Bool, true, false, ◌&&◌, List, [], ◌∷◌, Bytes, ℤ, arith,
  is_some, Bool-cases,
}
use glacialcast.Native.Types.{NativeObject}
use glacialcast.Relay.Rows.{GroupKey, GroupRow, ObjectRow, Database}
use glacialcast.Relay.Statements.{find, update_one, delete_where, same_key, of_group}
use glacialcast.Relay.Groups.{key_of}
use glacialcast.Relay.Selections.{In, same_key_sound}

-- The row of an object that arrives, with the bytes that encode it.
abbrev pub object_row : NativeObject → Bytes → ℤ → ObjectRow
object_row o encoded received_at_ms = record {
  group = key_of o o.header.key_group;
  sequence = o.header.sequence;
  received_at_ms = received_at_ms;
  object = encoded;
}

-- The row is stored, unless it continues a group that is complete; and no other row is new.
abbrev pub Writes : ObjectRow → Database → Database → Type 0
Writes row db db' =
    (In row db'.objects
      ⊎ ((g : GroupRow) × In g db.groups × (g.key ≡ row.group) × (g.complete ≡ true)))
    × ((x : ObjectRow) → In x db'.objects → (x ≡ row) ⊎ In x db.objects)

pub In-delete_where :
    {A : Type 0} (matches : A → Bool) (rows : List A) (x : A)
    → In x (delete_where matches rows)
    → In x rows
unfolding delete_where
In-delete_where matches [] x there = there
In-delete_where matches (r ∷ rows) x there = elim (Bool-cases (matches r)) [
  | inl t ↦ inr (In-delete_where matches rows x (rw t at there))
  | inr f ↦
      let kept : (x ≡ r) ⊎ In x (delete_where matches rows) = rw f at there in
      elim kept [ inl same ↦ inl same | inr later ↦ inr (In-delete_where matches rows x later) ]
]

pub delete_where-In :
    {A : Type 0} (matches : A → Bool) (rows : List A) (x : A)
    → In x rows
    → matches x ≡ false
    → In x (delete_where matches rows)
unfolding delete_where
delete_where-In matches [] x there out = there
delete_where-In matches (r ∷ rows) x there out = elim (Bool-cases (matches r)) [
  | inl t ↦ rw t (elim there [
    | inl same ↦ absurd (cc (sym t ∙ ap matches (sym same) ∙ out))
    | inr later ↦ delete_where-In matches rows x later out
  ])
  | inr f ↦ rw f (elim there [
    | inl same ↦ inl same
    | inr later ↦ inr (delete_where-In matches rows x later out)
  ])
]

pub find-missing :
    {A : Type 0} (matches : A → Bool) (rows : List A) (x : A)
    → is_some (find matches rows) ≡ false
    → In x rows
    → matches x ≡ false
unfolding find
find-missing matches [] x h there = absurd there
find-missing matches (r ∷ rows) x h there = elim (Bool-cases (matches r)) [
  | inl t ↦ absurd (cc (rw t at h))
  | inr f ↦ elim there [
    | inl same ↦ ap matches same ∙ f
    | inr later ↦ find-missing matches rows x (rw f at h) later
  ]
]

-- No group of a key is complete.
abbrev pub Growing : GroupKey → List GroupRow → Type 0
Growing key groups = (g : GroupRow) → In g groups → of_group key g ≡ true → g.complete ≡ false

pub Growing-dec :
    (key : GroupKey) (groups : List GroupRow)
    → Growing key groups ⊎ ((g : GroupRow) × In g groups × (g.key ≡ key) × (g.complete ≡ true))
Growing-dec key [] = inl (λ g there of. absurd there)
Growing-dec key (r ∷ rows) = elim (Growing-dec key rows) [
  | inr (g, there, same, complete) ↦ inr (g, inr there, same, complete)
  | inl growing ↦ elim (Bool-cases (of_group key r && r.complete)) [
    | inl t ↦ inr (r, inl refl, same_key_sound r.key key (ground arith), ground arith)
    | inr f ↦ inl (λ g there of. elim there [
      | inl same ↦
          let first : of_group key r ≡ true = ap (of_group key) (sym same) ∙ of in
          ap (λ (x : GroupRow). x.complete) same ∙ ground arith
      | inr later ↦ growing g later of
    ])
  ]
]

pub update_one-Growing :
    (key : GroupKey) (matches : GroupRow → Bool) (change : GroupRow → GroupRow)
    (rows : List GroupRow)
    → ((g : GroupRow) → (change g).key ≡ g.key)
    → ((g : GroupRow) → (change g).complete ≡ g.complete)
    → Growing key rows
    → Growing key (update_one matches change rows)
unfolding update_one
update_one-Growing key matches change [] same_id same_end growing = growing
update_one-Growing key matches change (r ∷ rows) same_id same_end growing =
    elim (Bool-cases (matches r)) [
      | inl t ↦ rw t (λ g there of. elim there [
        | inl same ↦
            ap (λ (x : GroupRow). x.complete) same
            ∙ same_end r
            ∙ growing r (inl refl) (
                ap (λ k. same_key k key) (sym (ap (λ (x : GroupRow). x.key) same ∙ same_id r)) ∙ of)
        | inr later ↦ growing g (inr later) of
      ])
      | inr f ↦ rw f (λ g there of. elim there [
        | inl same ↦ growing g (inl same) of
        | inr later ↦
            update_one-Growing key matches change rows same_id same_end (λ x i. growing x (inr i)) g
              later of
      ])
    ]
