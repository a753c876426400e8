-- ===== src/Prelude/Signed.antt =====
-- `i64` on signed integers: comparison, checked and saturating arithmetic, and the order that they stand for.
use Prim.Native.Nat.{ℕ, ◌+◌, ◌-◌, ◌^◌, ◌≤◌, ◌<◌, min}
use mathlib.Core.Bool.{Bool, true, false, not}
use mathlib.Core.Option.{Option, none, some}
use glacialcast.Prelude.Tests.{ltb, leb, if◌then◌else◌}
use glacialcast.Prelude.Int.{ℤ, pos, negsuc}

-- The number of non-negative values of `i64`.
abbrev pub i64_half : ℕ
i64_half = 2 ^ 63

abbrev pub ltb_ℤ : ℤ → ℤ → Bool
ltb_ℤ (pos a) (pos b) = ltb a b
ltb_ℤ (pos a) (negsuc b) = false
ltb_ℤ (negsuc a) (pos b) = true
ltb_ℤ (negsuc a) (negsuc b) = ltb b a

abbrev pub leb_ℤ : ℤ → ℤ → Bool
leb_ℤ a b = not (ltb_ℤ b a)

abbrev pub max_ℤ : ℤ → ℤ → ℤ
max_ℤ a b = if ltb_ℤ a b then b else a

-- a - b on natural numbers, as an integer.
abbrev pub sub_ℕ : ℕ → ℕ → ℤ
sub_ℕ a b = if leb b a then pos (a - b) else negsuc (b - a - 1)

abbrev pub sub_ℤ : ℤ → ℤ → ℤ
sub_ℤ (pos a) (pos b) = sub_ℕ a b
sub_ℤ (pos a) (negsuc b) = pos (a + b + 1)
sub_ℤ (negsuc a) (pos b) = negsuc (a + b)
sub_ℤ (negsuc a) (negsuc b) = sub_ℕ b a

abbrev pub is_i64 : ℤ → Bool
is_i64 (pos n) = ltb n i64_half
is_i64 (negsuc n) = ltb n i64_half

-- `i64::checked_sub`.
abbrev pub checked_sub_ℤ : ℤ → ℤ → Option ℤ
checked_sub_ℤ a b = if is_i64 (sub_ℤ a b) then some (sub_ℤ a b) else none

-- `saturating_sub` and `saturating_add` of a number that is not negative.
abbrev pub saturating_sub_ℤ : ℤ → ℕ → ℤ
saturating_sub_ℤ (pos a) b = if leb b a then pos (a - b) else negsuc (b - a - 1)
saturating_sub_ℤ (negsuc a) b = negsuc (min (a + b) (i64_half - 1))

abbrev pub saturating_add_ℤ : ℤ → ℕ → ℤ
saturating_add_ℤ (pos a) b = pos (min (a + b) (i64_half - 1))
saturating_add_ℤ (negsuc a) b = if leb (a + 1) b then pos (b - a - 1) else negsuc (a - b)

-- The order of the integers that they stand for.
abbrev pub pos_part : ℤ → ℕ
pos_part (pos n) = n
pos_part (negsuc n) = 0

abbrev pub neg_part : ℤ → ℕ
neg_part (pos n) = 0
neg_part (negsuc n) = n + 1

infix 50 ◌<ℤ◌ ◌≤ℤ◌
abbrev pub ◌<ℤ◌ : ℤ → ℤ → Type 0
a <ℤ b = pos_part a + neg_part b < pos_part b + neg_part a

abbrev pub ◌≤ℤ◌ : ℤ → ℤ → Type 0
a ≤ℤ b = pos_part a + neg_part b ≤ pos_part b + neg_part a

-- `a <= b + k`.
abbrev pub LeWithin : ℤ → ℤ → ℕ → Type 0
LeWithin a b k = pos_part a + neg_part b ≤ pos_part b + neg_part a + k

-- `a <= b + c`.
abbrev pub LeSum : ℤ → ℤ → ℤ → Type 0
LeSum a b c = pos_part a + neg_part b + neg_part c ≤ pos_part b + pos_part c + neg_part a
