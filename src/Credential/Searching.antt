-- ===== src/Credential/Searching.antt =====
-- crates/protocol/src/credential.rs: the binary search of `NativeCredential::verify_at`, and the order of serials.
use glacialcast.Prelude.{
  ℕ, zero, suc, ◌-◌, ◌/◌, ◌≤◌, ◌<◌, ◌≡◌, refl, sym, ap, ◌∙◌, subst, true, false, ◌||◌, List, [],
  ◌∷◌, ◌++◌, length, take, drop, take-append-drop, drop-drop, length-take, length-drop, All, ltb,
  ◌==◌, Bool-cases, inl, inr, arith, Bool, ◌+◌, All-take, if◌then◌else◌,
}
use glacialcast.Credential.Revocation.{narrow, search_rounds, binary_search, first_above, first_is}

-- Whether a serial is on a list.
unfoldable pub contains : ℕ → List ℕ → Bool
contains target [] = false
contains target (x ∷ xs) = x == target || contains target xs

-- Each serial is below all that follow it.
abbrev pub Ascending : List ℕ → Type 0
Ascending [] = Unit
Ascending (x ∷ xs) = All (λ y. x < y) xs × Ascending xs

contains-append :
    (target : ℕ) (xs ys : List ℕ)
    → contains target (xs ++ ys) ≡ (contains target xs || contains target ys)
unfolding contains
contains-append target [] ys = refl
contains-append target (x ∷ xs) ys = ground (arith, contains-append target xs ys)

absent_below :
    (target bound : ℕ) (xs : List ℕ)
    → All (λ x. x < bound) xs
    → bound ≤ target
    → contains target xs ≡ false
unfolding contains
absent_below target bound [] h le = refl
absent_below target bound (x ∷ xs) h le = ground (arith, absent_below target bound xs h.1 le)

absent_above :
    (target bound : ℕ) (xs : List ℕ)
    → All (λ x. bound < x) xs
    → target ≤ bound
    → contains target xs ≡ false
unfolding contains
absent_above target bound [] h le = refl
absent_above target bound (x ∷ xs) h le = ground (arith, absent_above target bound xs h.1 le)

pub Ascending-drop : (n : ℕ) (xs : List ℕ) → Ascending xs → Ascending (drop n xs)
Ascending-drop zero xs h = h
Ascending-drop (suc n) [] h = tt
Ascending-drop (suc n) (x ∷ xs) h = Ascending-drop n xs h.1

pub right_of : (a b : Bool) → (a || b) ≡ false → b ≡ false
right_of a b h = ground arith

contains-drop :
    (target n : ℕ) (xs : List ℕ) → contains target xs ≡ false → contains target (drop n xs) ≡ false
contains-drop target n xs h = right_of (contains target (take n xs)) (contains target (drop n xs)) (
    sym (contains-append target (take n xs) (drop n xs))
    ∙ ap (contains target) (take-append-drop n xs)
    ∙ h)

-- What holds of all serials holds of the one after the first `n`.
module _ (P : ℕ → Type 0) where
  at_position : (n : ℕ) (xs : List ℕ) {y : ℕ} {ys : List ℕ} → All P xs → drop n xs ≡ y ∷ ys → P y
  at_position zero [] h e = absurd (cc e)
  at_position zero (x ∷ xs) h e = subst P (cc e) h.0
  at_position (suc n) [] h e = absurd (cc e)
  at_position (suc n) (x ∷ xs) h e = at_position n xs h.1 e

take_below :
    (n : ℕ) (xs : List ℕ) {y : ℕ} {ys : List ℕ}
    → Ascending xs
    → drop n xs ≡ y ∷ ys
    → All (λ x. x < y) (take n xs)
take_below zero xs h e = tt
take_below (suc n) [] h e = tt
take_below (suc n) (x ∷ xs) h e = (at_position (λ y. x < y) n xs h.0 e, take_below n xs h.1 e)

contains_cut :
    (target n : ℕ) (xs : List ℕ)
    → contains target (drop n xs) ≡ false
    → contains target (take n xs) ≡ contains target xs
contains_cut target n xs gone =
    only (contains-append target (take n xs) (drop n xs)) gone
    ∙ ap (contains target) (take-append-drop n xs)
  where
    only : {a b c : Bool} → c ≡ (a || b) → b ≡ false → a ≡ c
    only p q = ground arith

contains_rest :
    (target n : ℕ) (xs : List ℕ)
    → contains target (take n xs) ≡ false
    → contains target (drop n xs) ≡ contains target xs
contains_rest target n xs gone =
    only (contains-append target (take n xs) (drop n xs)) gone
    ∙ ap (contains target) (take-append-drop n xs)
  where
    only : {a b c : Bool} → c ≡ (a || b) → a ≡ false → b ≡ c
    only p q = ground arith

unlisted :
    (target y : ℕ) (ys : List ℕ)
    → ltb target y ≡ true
    → Ascending (y ∷ ys)
    → contains target (y ∷ ys) ≡ false
unfolding contains
unlisted target y ys above up = ground (arith, absent_above target y ys up.0)

-- The half that is kept holds the serial exactly when the whole does.
kept_half :
    (target k j : ℕ) (xs rest : List ℕ)
    → Ascending xs
    → k < length xs
    → drop k xs ≡ rest
    → contains target (if first_above target rest then take (k + j) xs else rest)
      ≡ contains target xs
kept_half target k j xs [] up few e = absurd (omega (arith, ap length e, length-drop k xs))
kept_half target k j xs (y ∷ ys) up few e =
    let tail : Ascending (y ∷ ys) = subst Ascending e (Ascending-drop k xs up) in
    elim (Bool-cases (ltb target y)) [
      | inl above ↦ rw above (
          contains_cut target (k + j) xs (
            ap (contains target) (sym (drop-drop k j xs) ∙ ap (drop j) e)
            ∙ contains-drop target j (y ∷ ys) (unlisted target y ys above tail)))
      | inr reached ↦ rw reached (
          ap (contains target) (sym e)
          ∙ contains_rest target k xs
              (absent_below target y (take k xs) (take_below k xs up e) (ground arith)))
    ]

narrow_lem :
    (target : ℕ) (xs : List ℕ)
    → Ascending xs
    → 1 < length xs
    → contains target (narrow target xs) ≡ contains target xs
unfolding narrow
narrow_lem target xs up more =
    subst
      (λ (m : ℕ).
        contains target (
          if first_above target (drop (length xs / 2) xs)
          then take m xs
          else drop (length xs / 2) xs)
        ≡ contains target xs)
      (omega arith)
      (kept_half target (length xs / 2) (length xs - length xs / 2 - length xs / 2) xs
        (drop (length xs / 2) xs) up (omega arith) refl)

Ascending-take : (n : ℕ) (xs : List ℕ) → Ascending xs → Ascending (take n xs)
Ascending-take zero xs h = tt
Ascending-take (suc n) [] h = tt
Ascending-take (suc n) (x ∷ xs) h = (All-take (λ y. x < y) n xs h.0, Ascending-take n xs h.1)

narrow-Ascending : (target : ℕ) (xs : List ℕ) → Ascending xs → Ascending (narrow target xs)
unfolding narrow
narrow-Ascending target xs up = elim (Bool-cases (first_above target (drop (length xs / 2) xs))) [
  | inl above ↦ rw above (Ascending-take (length xs - length xs / 2) xs up)
  | inr reached ↦ rw reached (Ascending-drop (length xs / 2) xs up)
]

length-narrow : (target : ℕ) (xs : List ℕ) → 1 < length xs → length (narrow target xs) < length xs
unfolding narrow
length-narrow target xs more = elim (Bool-cases (first_above target (drop (length xs / 2) xs))) [
  | inl above ↦ rw above (omega (arith, length-take (length xs - length xs / 2) xs (omega arith)))
  | inr reached ↦ rw reached (omega (arith, length-drop (length xs / 2) xs))
]

first_is_lem :
    (target : ℕ) (xs : List ℕ) → ltb 1 (length xs) ≡ false → first_is target xs ≡ contains target xs
unfolding contains
first_is_lem target [] few = refl
first_is_lem target (x ∷ []) few = ground arith
first_is_lem target (x ∷ (y ∷ ys)) few = absurd (ground arith)

search_rounds_lem :
    (fuel target : ℕ) (xs : List ℕ)
    → length xs ≤ fuel
    → Ascending xs
    → search_rounds fuel target xs ≡ contains target xs
unfolding search_rounds
search_rounds_lem zero target [] enough up = unfold contains in refl
search_rounds_lem zero target (x ∷ xs) enough up = absurd (omega arith)
search_rounds_lem (suc fuel) target xs enough up = elim (Bool-cases (ltb 1 (length xs))) [
  | inl more ↦
      let several : 1 < length xs = ground arith in
      rw more (
        search_rounds_lem fuel target (narrow target xs)
          (omega (arith, length-narrow target xs several)) (narrow-Ascending target xs up)
        ∙ narrow_lem target xs up several)
  | inr few ↦ rw few (first_is_lem target xs few)
]

-- On serials in ascending order the binary search, whose rounds are bounded by the number of
-- serials, answers whether the serial is among them.
pub binary_search-contains :
    (target : ℕ) (serials : List ℕ)
    → Ascending serials
    → binary_search target serials ≡ contains target serials
unfolding binary_search
binary_search-contains target serials up =
    search_rounds_lem (length serials) target serials (omega arith) up
