-- ===== src/Prelude/Words.antt =====
-- Unsigned machine integers on a 64-bit target: checked arithmetic and narrowing conversions.
use Prim.Native.Nat.{ℕ, ◌+◌, ◌*◌, ◌^◌}
use mathlib.Core.Bool.{Bool, true, false}
use mathlib.Core.Option.{Option, none, some}
use glacialcast.Prelude.Tests.{ltb, ◌==◌, if◌then◌else◌}
use glacialcast.Prelude.Results.{Result, ok, err}

-- The number of values of `u64` and `usize`.
abbrev pub u64_bound : ℕ
u64_bound = 2 ^ 64

abbrev pub checked_add : ℕ → ℕ → Option ℕ
checked_add a b = if ltb (a + b) u64_bound then some (a + b) else none

abbrev pub checked_mul : ℕ → ℕ → Option ℕ
checked_mul a b = if ltb (a * b) u64_bound then some (a * b) else none

-- `try_from` into an unsigned type with `bound` values.
abbrev pub try_from {ℓ} : {E : Type ℓ} → ℕ → ℕ → E → Result E ℕ
try_from bound n e = if ltb n bound then ok n else err e

abbrev pub u8_of_bool : Bool → ℕ
u8_of_bool true = 1
u8_of_bool false = 0

abbrev pub is_some {ℓ} : {A : Type ℓ} → Option A → Bool
is_some none = false
is_some (some a) = true

abbrev pub is_some_and {ℓ} : {A : Type ℓ} → Option A → (A → Bool) → Bool
is_some_and none p = false
is_some_and (some a) p = p a

-- `option == Some(n)`.
abbrev pub is_some_eq : Option ℕ → ℕ → Bool
is_some_eq none n = false
is_some_eq (some m) n = m == n
