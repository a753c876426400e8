-- ===== src/Relay/Selections.antt =====
-- crates/relay/src/native_store.rs: which row `ORDER BY ... LIMIT 1` picks.
use glacialcast.Prelude.{
  ◌≡◌, refl, sym, ap, ◌∙◌, subst, ◌⊎◌, inl, inr, Bool, true, false, Option, none, some,
  some-injective, List, [], ◌∷◌, arith, Bool-cases, Option-cases,
}
use glacialcast.Relay.Rows.{GroupKey}
use glacialcast.Relay.Statements.{first_by, same_key, earlier}

-- Membership.
abbrev pub In : {A : Type 0} → A → List A → Type 0
In x [] = ⊥
In x (y ∷ ys) = (x ≡ y) ⊎ In x ys

pub same_key_refl : (k : GroupKey) → same_key k k ≡ true
same_key_refl k = ground arith

pub same_key_sound : (a b : GroupKey) → same_key a b ≡ true → a ≡ b
same_key_sound a b h = ground arith

module _ {A : Type 0} (matches : A → Bool) (before : A → A → Bool) where
  pub earlier_cases :
      (row : A) (rest : Option A)
      → (earlier matches before row rest ≡ row)
        ⊎ ((other : A) × (rest ≡ some other) × (earlier matches before row rest ≡ other))
  earlier_cases row none = inl refl
  earlier_cases row (some other) = elim (Bool-cases (before other row)) [
    | inl t ↦ inr (other, refl, rw t)
    | inr f ↦ inl (rw f)
  ]

  -- `ORDER BY ... LIMIT 1` picks a row that matches.
  pub first_by_sound :
      (rows : List A) (row : A)
      → first_by matches before rows ≡ some row
      → In row rows × (matches row ≡ true)
  unfolding first_by
  first_by_sound [] row h = absurd (cc h)
  first_by_sound (r ∷ rows) row h = elim (Bool-cases (matches r)) [
    | inl t ↦
        let picked =
          some-injective (earlier matches before r (first_by matches before rows)) row
            (rw t at h) in
        elim (earlier_cases r (first_by matches before rows)) [
          | inl first ↦
              let same : r ≡ row = sym first ∙ picked in
              (inl (sym same), subst (λ x. matches x ≡ true) same t)
          | inr (other, found, e) ↦
              let (there, m) = first_by_sound rows row (found ∙ ap some (sym e ∙ picked)) in
              (inr there, m)
        ]
    | inr f ↦ let (there, m) = first_by_sound rows row (rw f at h) in (inr there, m)
  ]

  -- It finds one if there is one.
  pub first_by_empty :
      (rows : List A) (row : A)
      → first_by matches before rows ≡ none
      → In row rows
      → matches row ≡ false
  unfolding first_by
  first_by_empty [] row h there = absurd there
  first_by_empty (r ∷ rows) row h there = elim (Bool-cases (matches r)) [
    | inl t ↦ absurd (cc (rw t at h))
    | inr f ↦ elim there [
      | inl same ↦ rw same f
      | inr later ↦ first_by_empty rows row (rw f at h) later
    ]
  ]

  -- No row that matches comes before the one that it picks.
  pub first_by_first :
      ((a b : A) → before a b ≡ true → before b a ≡ false)
      → ((a b c : A) → before a b ≡ false → before b c ≡ false → before a c ≡ false)
      → ((a : A) → before a a ≡ false)
      → (rows : List A) (row other : A) → first_by matches before rows ≡ some row
      → In other rows
      → matches other ≡ true
      → before other row ≡ false
  unfolding first_by
  first_by_first asym trans irrefl [] row other h there m = absurd there
  first_by_first asym trans irrefl (r ∷ rows) row other h there m = elim (Bool-cases (matches r)) [
    | inr f ↦ elim there [
      | inl same ↦ absurd (cc (sym m ∙ ap matches same ∙ f))
      | inr later ↦ first_by_first asym trans irrefl rows row other (rw f at h) later m
    ]
    | inl t ↦ elim (Option-cases (first_by matches before rows)) [
      | inl nothing ↦
          let same : r ≡ row = some-injective r row (rw (t, nothing) at h) in
          elim there [
            | inl first ↦ rw (first, sym same) (irrefl r)
            | inr later ↦ absurd (cc (sym m ∙ first_by_empty rows other nothing later))
          ]
      | inr (x, found) ↦ elim (Bool-cases (before x r)) [
        | inl earlier_x ↦
            let same : x ≡ row = some-injective x row (rw (t, found, earlier_x) at h) in
            elim there [
              | inl first ↦ rw (first, sym same) (asym x r earlier_x)
              | inr later ↦
                  rw (sym same) (first_by_first asym trans irrefl rows x other found later m)
            ]
        | inr later_x ↦
            let same : r ≡ row = some-injective r row (rw (t, found, later_x) at h) in
            elim there [
              | inl first ↦ rw (first, sym same) (irrefl r)
              | inr later ↦ rw (sym same) (
                  trans other x r (first_by_first asym trans irrefl rows x other found later m)
                    later_x)
            ]
      ]
    ]
  ]
