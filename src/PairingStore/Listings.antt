-- ===== src/PairingStore/Listings.antt =====
-- crates/relay/src/pairing_store.rs: the selection, order and limit of its queries, and what a purge leaves.
use glacialcast.Prelude.{
  ℕ, zero, suc, ◌≤◌, ◌≡◌, refl, ap, ◌∙◌, Bool, true, false, not, ◌&&◌, ◌||◌, List, [], ◌∷◌, length,
  take, All, ℤ, ◌==◌, arith, Bool-cases, inl, inr, leb_ℤ, is_some,
}
use glacialcast.Relay.Statements.{count, delete_where, select, insert_ordered, order_by}
use glacialcast.PairingStore.Rows.{PairRow}
use glacialcast.PairingStore.Statements.{pending_for, is_purged}

length-insert_ordered :
    {A : Type 0} (before : A → A → Bool) (x : A) (rows : List A)
    → length (insert_ordered before x rows) ≡ suc (length rows)
unfolding insert_ordered
length-insert_ordered before x [] = refl
length-insert_ordered before x (r ∷ rows) = elim (Bool-cases (before r x)) [
  | inl t ↦ rw t (ap suc (length-insert_ordered before x rows))
  | inr f ↦ rw f
]

pub length-order_by :
    {A : Type 0} (before : A → A → Bool) (rows : List A)
    → length (order_by before rows) ≡ length rows
unfolding order_by
length-order_by before [] = refl
length-order_by before (r ∷ rows) =
    length-insert_ordered before r (order_by before rows) ∙ ap suc (length-order_by before rows)

pub length-select :
    {A : Type 0} (matches : A → Bool) (rows : List A)
    → length (select matches rows) ≡ count matches rows
unfolding select count
length-select matches [] = omega arith
length-select matches (r ∷ rows) = elim (Bool-cases (matches r)) [
  | inl t ↦ rw t (omega (arith, length-select matches rows))
  | inr f ↦ rw f (omega (arith, length-select matches rows))
]

pub take_all : {A : Type 0} (n : ℕ) (xs : List A) → length xs ≤ n → take n xs ≡ xs
take_all zero [] h = refl
take_all zero (x ∷ xs) h = absurd (omega arith)
take_all (suc n) [] h = refl
take_all (suc n) (x ∷ xs) h = ap (◌∷◌ x) (take_all n xs (omega arith))

pub delete_where-left :
    {A : Type 0} (matches : A → Bool) (rows : List A)
    → All (λ x. matches x ≡ false) (delete_where matches rows)
unfolding delete_where
delete_where-left matches [] = tt
delete_where-left matches (r ∷ rows) = elim (Bool-cases (matches r)) [
  | inl t ↦ rw t (delete_where-left matches rows)
  | inr f ↦ rw f (f, delete_where-left matches rows)
]

pub All-both :
    {A : Type 0} (P Q : A → Type 0) (xs : List A) → All P xs → All Q xs → All (λ x. P x × Q x) xs
All-both P Q [] p q = tt
All-both P Q (x ∷ xs) p q = ((p.0, q.0), All-both P Q xs p.1 q.1)

-- A pending row that a purge leaves has not expired.
pub unexpired :
    (row : PairRow) (publisher_id : ℕ) (now_ms : ℤ)
    → is_purged now_ms row ≡ false
    → pending_for publisher_id row ≡ true
    → leb_ℤ row.expires_at_ms now_ms ≡ false
unexpired row publisher_id now_ms kept pending =
    split (row.publisher_id == publisher_id) (is_some row.decision) (leb_ℤ row.expires_at_ms now_ms)
      _ pending kept
  where
    split :
        (named decision late old : Bool)
        → (named && not decision) ≡ true
        → (not decision && late || decision && old) ≡ false
        → late ≡ false
    split named decision late old p k = ground arith
