-- ===== src/Credential/Sorting.antt =====
-- crates/protocol/src/credential.rs: the sorted serials of `sign_revocations` and the order that
-- `RevocationList::verify_at` asks for.
use glacialcast.Prelude.{
  ℕ, suc, ◌≤◌, ◌<◌, ◌≡◌, refl, ap, ◌∙◌, false, ◌||◌, List, [], ◌∷◌, length, All, All-imp, leb, ◌==◌,
  Bool-cases, inl, inr, arith,
}
use glacialcast.Credential.Revocation.{any_pair, insert_sorted, sort_unstable}
use glacialcast.Credential.Searching.{contains, Ascending}

-- No serial is above one that follows it.
abbrev Ordered : List ℕ → Type 0
Ordered [] = Unit
Ordered (x ∷ xs) = All (λ y. x ≤ y) xs × Ordered xs

pub any_pair-Ascending : (xs : List ℕ) → any_pair (λ a b. leb b a) xs ≡ false → Ascending xs
unfolding any_pair
any_pair-Ascending [] h = tt
any_pair-Ascending (x ∷ []) h = (tt, tt)
any_pair-Ascending (x ∷ (y ∷ ys)) h =
    let rest = any_pair-Ascending (y ∷ ys) (ground arith) in
    let below : x < y = ground arith in
    ((below, All-imp (λ z. y < z) (λ z. x < z) ys (λ z p. omega arith) rest.0), rest)

pub Ascending-any_pair : (xs : List ℕ) → Ascending xs → any_pair (λ a b. leb b a) xs ≡ false
unfolding any_pair
Ascending-any_pair [] h = refl
Ascending-any_pair (x ∷ []) h = refl
Ascending-any_pair (x ∷ (y ∷ ys)) h = ground (arith, Ascending-any_pair (y ∷ ys) h.1)

insert_sorted-All :
    (x y : ℕ) (ys : List ℕ) → x ≤ y → All (λ z. x ≤ z) ys → All (λ z. x ≤ z) (insert_sorted y ys)
unfolding insert_sorted
insert_sorted-All x y [] le h = (le, tt)
insert_sorted-All x y (z ∷ zs) le h = elim (Bool-cases (leb y z)) [
  | inl p ↦ rw p (le, h)
  | inr p ↦ rw p (h.0, insert_sorted-All x y zs le h.1)
]

insert_sorted-Ordered : (x : ℕ) (xs : List ℕ) → Ordered xs → Ordered (insert_sorted x xs)
unfolding insert_sorted
insert_sorted-Ordered x [] h = (tt, tt)
insert_sorted-Ordered x (y ∷ ys) h = elim (Bool-cases (leb x y)) [
  | inl p ↦
      let le : x ≤ y = ground arith in
      rw p ((le, All-imp (λ z. y ≤ z) (λ z. x ≤ z) ys (λ z q. omega arith) h.0), h)
  | inr p ↦ rw p (insert_sorted-All y x ys (ground arith) h.0, insert_sorted-Ordered x ys h.1)
]

sort_unstable-Ordered : (xs : List ℕ) → Ordered (sort_unstable xs)
unfolding sort_unstable
sort_unstable-Ordered [] = tt
sort_unstable-Ordered (x ∷ xs) =
    insert_sorted-Ordered x (sort_unstable xs) (sort_unstable-Ordered xs)

strict_of : (xs : List ℕ) → Ordered xs → any_pair ◌==◌ xs ≡ false → Ascending xs
unfolding any_pair
strict_of [] up h = tt
strict_of (x ∷ []) up h = (tt, tt)
strict_of (x ∷ (y ∷ ys)) up h =
    let rest = strict_of (y ∷ ys) up.1 (ground arith) in
    let below : x < y = ground arith in
    ((below, All-imp (λ z. y < z) (λ z. x < z) ys (λ z p. omega arith) rest.0), rest)

pub sort_unstable-Ascending :
    (xs : List ℕ) → any_pair ◌==◌ (sort_unstable xs) ≡ false → Ascending (sort_unstable xs)
sort_unstable-Ascending xs h = strict_of (sort_unstable xs) (sort_unstable-Ordered xs) h

contains-insert_sorted :
    (target x : ℕ) (xs : List ℕ)
    → contains target (insert_sorted x xs) ≡ (x == target || contains target xs)
unfolding insert_sorted contains
contains-insert_sorted target x [] = refl
contains-insert_sorted target x (y ∷ ys) = ground (arith, contains-insert_sorted target x ys)

pub contains-sort_unstable :
    (target : ℕ) (xs : List ℕ) → contains target (sort_unstable xs) ≡ contains target xs
unfolding sort_unstable contains
contains-sort_unstable target [] = refl
contains-sort_unstable target (x ∷ xs) =
    contains-insert_sorted target x (sort_unstable xs)
    ∙ ap (λ b. x == target || b) (contains-sort_unstable target xs)

length-insert_sorted : (x : ℕ) (xs : List ℕ) → length (insert_sorted x xs) ≡ suc (length xs)
unfolding insert_sorted
length-insert_sorted x [] = refl
length-insert_sorted x (y ∷ ys) = elim (Bool-cases (leb x y)) [
  | inl p ↦ rw p
  | inr p ↦ rw p (ap suc (length-insert_sorted x ys))
]

pub length-sort_unstable : (xs : List ℕ) → length (sort_unstable xs) ≡ length xs
unfolding sort_unstable
length-sort_unstable [] = refl
length-sort_unstable (x ∷ xs) =
    length-insert_sorted x (sort_unstable xs) ∙ ap suc (length-sort_unstable xs)
