-- ===== src/Prelude/BigEndian.antt =====
-- Byte sequences, and the standard library's `to_be_bytes` and `from_be_bytes` at any width.
use Prim.Native.Nat.{ℕ, zero, suc, ◌+◌, ◌*◌, ◌/◌, ◌%◌, ◌^◌, ◌<◌}
use mathlib.Core.Path.{◌≡◌, refl, ap, ap₂, ◌∙◌, subst}
use mathlib.Core.List.{List, [], ◌∷◌}
use native.Mathlib.Omega.{arith}
use native.Mathlib.Nat.{
  div-add-mod, mod-lt, pow-suc, div-lt_iff_lt-mul, mul-add-div_right, div-eq_of_lt, mul_comm,
  mod-eq_of_lt, mul-add-mod_self_right,
}
use mathlib.Core.Bool.{Bool, true, false, not}
use glacialcast.Prelude.Tests.{◌==◌, if◌then◌else◌}
use glacialcast.Prelude.Lists.{length, All}

abbrev pub Bytes : Type 0
Bytes = List ℕ

abbrev pub IsByte : ℕ → Type 0
IsByte b = b < 256

-- `==` on byte sequences and on flags, `is_empty` and `starts_with`.
abbrev pub same_bytes : Bytes → Bytes → Bool
same_bytes [] [] = true
same_bytes [] (y ∷ ys) = false
same_bytes (x ∷ xs) [] = false
same_bytes (x ∷ xs) (y ∷ ys) = if x == y then same_bytes xs ys else false

pub same_bytes_sound : (xs ys : Bytes) → same_bytes xs ys ≡ true → xs ≡ ys
same_bytes_sound [] [] h = refl
same_bytes_sound [] (y ∷ ys) h = absurd (cc h)
same_bytes_sound (x ∷ xs) [] h = absurd (cc h)
same_bytes_sound (x ∷ xs) (y ∷ ys) h = ground (arith, same_bytes_sound xs ys)

pub same_bytes_refl : (xs : Bytes) → same_bytes xs xs ≡ true
same_bytes_refl [] = refl
same_bytes_refl (x ∷ xs) = ground (arith, same_bytes_refl xs)

abbrev pub is_empty {ℓ} : {A : Type ℓ} → List A → Bool
is_empty [] = true
is_empty (x ∷ xs) = false

abbrev pub starts_with : Bytes → Bytes → Bool
starts_with [] ys = true
starts_with (x ∷ xs) [] = false
starts_with (x ∷ xs) (y ∷ ys) = if x == y then starts_with xs ys else false

abbrev pub same_bool : Bool → Bool → Bool
same_bool true b = b
same_bool false b = not b

unfoldable pub to_be_bytes : ℕ → ℕ → Bytes
to_be_bytes zero n = []
to_be_bytes (suc k) n = (n / 256 ^ k) ∷ to_be_bytes k (n % 256 ^ k)

unfoldable pub from_be_bytes : Bytes → ℕ
from_be_bytes [] = 0
from_be_bytes (b ∷ bs) = b * 256 ^ length bs + from_be_bytes bs

pow_pos : (k : ℕ) → 0 < 256 ^ k
pow_pos zero = omega arith
pow_pos (suc k) = omega (arith, pow_pos k, pow-suc 256 k)

pub length-to_be_bytes : (k n : ℕ) → length (to_be_bytes k n) ≡ k
unfolding to_be_bytes
length-to_be_bytes zero n = refl
length-to_be_bytes (suc k) n = ap suc (length-to_be_bytes k (n % 256 ^ k))

pub to_be_bytes-IsByte : (k n : ℕ) → n < 256 ^ k → All IsByte (to_be_bytes k n)
unfolding to_be_bytes
to_be_bytes-IsByte zero n h = tt
to_be_bytes-IsByte (suc k) n h = (
  (div-lt_iff_lt-mul (pow_pos k)).1 (subst (λ m. n < m) (pow-suc 256 k ∙ mul_comm (256 ^ k) 256) h),
  to_be_bytes-IsByte k (n % 256 ^ k) (mod-lt n (pow_pos k)),
)

pub from_be_bytes-lt : (bs : Bytes) → All IsByte bs → from_be_bytes bs < 256 ^ length bs
unfolding from_be_bytes
from_be_bytes-lt [] h = omega arith
from_be_bytes-lt (b ∷ bs) h = grind (arith, from_be_bytes-lt bs h.1, pow-suc 256 (length bs))

pub from_be_bytes-to_be_bytes : (k n : ℕ) → n < 256 ^ k → from_be_bytes (to_be_bytes k n) ≡ n
unfolding to_be_bytes from_be_bytes
from_be_bytes-to_be_bytes zero n h = omega arith
from_be_bytes-to_be_bytes (suc k) n h = rw (length-to_be_bytes k (n % 256 ^ k)) (
    omega (
      arith,
      from_be_bytes-to_be_bytes k (n % 256 ^ k) (mod-lt _ (pow_pos k)),
      div-add-mod n (256 ^ k),
    ))

pub to_be_bytes-from_be_bytes :
    (bs : Bytes) → All IsByte bs → to_be_bytes (length bs) (from_be_bytes bs) ≡ bs
unfolding to_be_bytes from_be_bytes
to_be_bytes-from_be_bytes [] h = refl
to_be_bytes-from_be_bytes (b ∷ bs) h =
    ap₂ ◌∷◌
      (omega (
        arith,
        mul-add-div_right (pow_pos (length bs)) b (from_be_bytes bs),
        div-eq_of_lt (from_be_bytes-lt bs h.1),
      ))
      (ap (to_be_bytes (length bs)) (
          mul-add-mod_self_right b (256 ^ length bs) (from_be_bytes bs)
          ∙ mod-eq_of_lt (from_be_bytes-lt bs h.1))
        ∙ to_be_bytes-from_be_bytes bs h.1)
