-- ===== src/Prelude/Int.antt =====
-- Signed machine integers: `negsuc n` is -(n + 1).
use Prim.Native.Nat.{ℕ, ◌-◌, ◌*◌, ◌<◌}
use mathlib.Core.Path.{◌≡◌}
use native.Mathlib.Omega.{arith}
use glacialcast.Prelude.Tests.{ltb, if◌then◌else◌}

pub data ℤ : Type 0 where
  pos : ℕ → ℤ
  negsuc : ℕ → ℤ

-- The two's-complement pattern of a number in a word of `2 * half` values.
abbrev pub to_word : ℕ → ℤ → ℕ
to_word half (pos n) = n
to_word half (negsuc n) = 2 * half - 1 - n

-- The number that a pattern stands for.
abbrev pub from_word : ℕ → ℕ → ℤ
from_word half w = if ltb w half then pos w else negsuc (2 * half - 1 - w)

-- `-half <= z < half`.
abbrev pub InRange : ℕ → ℤ → Type 0
InRange half (pos n) = n < half
InRange half (negsuc n) = n < half

pub from_word-to_word : (half : ℕ) (z : ℤ) → InRange half z → from_word half (to_word half z) ≡ z
from_word-to_word half (pos n) h = ground arith
from_word-to_word half (negsuc n) h = ground arith

pub to_word-from_word : (half w : ℕ) → w < 2 * half → to_word half (from_word half w) ≡ w
to_word-from_word half w h = ground arith

pub from_word-InRange : (half w : ℕ) → w < 2 * half → InRange half (from_word half w)
from_word-InRange half w h = ground arith

pub to_word-lt : (half : ℕ) (z : ℤ) → InRange half z → to_word half z < 2 * half
to_word-lt half (pos n) h = omega arith
to_word-lt half (negsuc n) h = omega arith
