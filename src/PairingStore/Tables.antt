-- ===== src/PairingStore/Tables.antt =====
-- crates/relay/src/pairing_store.rs: what the statements do to predicates on rows and to counts.
use glacialcast.Prelude.{
  ◌≤◌, ◌≡◌, sym, subst, ◌⊎◌, inl, inr, Bool, true, false, some, some-injective, List, [], ◌∷◌, All,
  arith, Bool-cases,
}
use glacialcast.Relay.Statements.{
  find, count, delete_where, update_one, select, insert_ordered, order_by,
}

module _ {A : Type 0} (P : A → Type 0) (matches : A → Bool) where
  pub delete_where-All : (rows : List A) → All P rows → All P (delete_where matches rows)
  unfolding delete_where
  delete_where-All [] all = tt
  delete_where-All (r ∷ rows) all = elim (Bool-cases (matches r)) [
    | inl t ↦ rw t (delete_where-All rows all.1)
    | inr f ↦ rw f (all.0, delete_where-All rows all.1)
  ]

  pub find-All : (rows : List A) (row : A) → All P rows → find matches rows ≡ some row → P row
  unfolding find
  find-All [] row all h = absurd (cc h)
  find-All (r ∷ rows) row all h = elim (Bool-cases (matches r)) [
    | inl t ↦ subst P (some-injective r row (rw t at h)) all.0
    | inr f ↦ find-All rows row all.1 (rw f at h)
  ]

  -- An update of the row that is found.
  pub update_one-All :
      (change : A → A) (rows : List A) (row : A)
      → All P rows
      → find matches rows ≡ some row
      → P (change row)
      → All P (update_one matches change rows)
  unfolding find update_one
  update_one-All change [] row all h new = tt
  update_one-All change (r ∷ rows) row all h new = elim (Bool-cases (matches r)) [
    | inl t ↦
        let same : r ≡ row = some-injective r row (rw t at h) in
        rw t (subst (λ x. P (change x)) (sym same) new, all.1)
    | inr f ↦ rw f (all.0, update_one-All change rows row all.1 (rw f at h) new)
  ]

module _ {A : Type 0} (matches : A → Bool) where
  pub find-matches : (rows : List A) (row : A) → find matches rows ≡ some row → matches row ≡ true
  unfolding find
  find-matches [] row h = absurd (cc h)
  find-matches (r ∷ rows) row h = elim (Bool-cases (matches r)) [
    | inl t ↦ subst (λ x. matches x ≡ true) (some-injective r row (rw t at h)) t
    | inr f ↦ find-matches rows row (rw f at h)
  ]

  pub count-delete_where :
      (counted : A → Bool) (rows : List A)
      → count counted (delete_where matches rows) ≤ count counted rows
  unfolding count delete_where
  count-delete_where counted [] = omega arith
  count-delete_where counted (r ∷ rows) = ground (arith, count-delete_where counted rows)

  -- An update after which no row counts that did not count before.
  pub count-update_one :
      (counted : A → Bool) (change : A → A)
      → ((x : A) → (counted (change x) ≡ false) ⊎ (counted (change x) ≡ counted x))
      → (rows : List A) → count counted (update_one matches change rows) ≤ count counted rows
  unfolding count update_one
  count-update_one counted change fewer [] = omega arith
  count-update_one counted change fewer (r ∷ rows) = elim (fewer r) [
    | inl out ↦ ground (arith, count-update_one counted change fewer rows)
    | inr same ↦ ground (arith, count-update_one counted change fewer rows)
  ]

-- Every row that a selection gives, in any order, is one that was there.
module _ {A : Type 0} (P : A → Type 0) where
  pub select-All :
      (matches : A → Bool) (rows : List A)
      → All P rows
      → All (λ x. P x × (matches x ≡ true)) (select matches rows)
  unfolding select
  select-All matches [] all = tt
  select-All matches (r ∷ rows) all = elim (Bool-cases (matches r)) [
    | inl t ↦ rw t ((all.0, t), select-All matches rows all.1)
    | inr f ↦ rw f (select-All matches rows all.1)
  ]

  pub insert_ordered-All :
      (before : A → A → Bool) (x : A) (rows : List A)
      → P x
      → All P rows
      → All P (insert_ordered before x rows)
  unfolding insert_ordered
  insert_ordered-All before x [] p all = (p, tt)
  insert_ordered-All before x (r ∷ rows) p all = elim (Bool-cases (before r x)) [
    | inl t ↦ rw t (all.0, insert_ordered-All before x rows p all.1)
    | inr f ↦ rw f (p, all)
  ]

  pub order_by-All :
      (before : A → A → Bool) (rows : List A) → All P rows → All P (order_by before rows)
  unfolding order_by
  order_by-All before [] all = tt
  order_by-All before (r ∷ rows) all =
      insert_ordered-All before r (order_by before rows) all.0 (order_by-All before rows all.1)
