-- ===== src/Cursor/Reader.antt =====
-- crates/protocol/src/cursor.rs: the bounds-checked `Reader` over the bytes of a batch.
use glacialcast.Prelude.{
  ℕ, ◌-◌, Bool, Option, none, some, Bytes, length, take, drop, from_be_bytes, ℤ, from_word, Result,
  ok, err, leb, ◌==◌, if◌then◌else◌, checked_add,
}
use glacialcast.Cursor.Format.{CursorError, malformed, i32_half, i64_half}

pub record Reader : Type 0 where
  pub bytes : Bytes
  pub offset : ℕ

-- A method that moves the reader on.
abbrev pub Read : Type 0 → Type 0
Read A = Reader → Result CursorError (A × Reader)

infixl 5 ◌>>=◌ ◌>>◌
abbrev pub ◌>>=◌ : {A B : Type 0} → Read A → (A → Read B) → Read B
◌>>=◌ m f r = elim (m r) [ ok (a, r') ↦ f a r' | err e ↦ err e ]

abbrev pub ◌>>◌ : {A B : Type 0} → Read A → Read B → Read B
m >> k = m >>= λ _. k

-- A step that does not move the reader.
abbrev pub lift : {A : Type 0} → Result CursorError A → Read A
lift (ok a) r = ok (a, r)
lift (err e) r = err e

abbrev pub pure : {A : Type 0} → A → Read A
pure a r = ok (a, r)

abbrev pub new : Bytes → Reader
new bytes = record { bytes = bytes; offset = 0 }

-- `self.bytes.get(self.offset..end)`.
abbrev pub get_range : Bytes → ℕ → ℕ → Option Bytes
get_range bytes start end =
    if leb end (length bytes) then some (take (end - start) (drop start bytes)) else none

-- The slice, and the reader moved to its end.
abbrev advance : Reader → ℕ → Option Bytes → Result CursorError (Bytes × Reader)
advance r end none = err malformed
advance r end (some value) = ok (value, record r { offset = end })

unfoldable pub take_bytes : ℕ → Read Bytes
take_bytes n r = elim (checked_add r.offset n) [
  | none ↦ err malformed
  | some end ↦ advance r end (get_range r.bytes r.offset end)
]

-- `u8`, `u16`, `u32` and `u64` are this at 1, 2, 4 and 8 bytes: `take` gives exactly as many, so that
-- the conversion to an array does not fail.
unfoldable pub uint : ℕ → Read ℕ
uint width = do value ← take_bytes width; pure (from_be_bytes value)

-- `i32` and `i64`.
unfoldable pub int : ℕ → ℕ → Read ℤ
int width half = do value ← take_bytes width; pure (from_word half (from_be_bytes value))

abbrev pub i32 : Read ℤ
i32 = int 4 i32_half

abbrev pub i64 : Read ℤ
i64 = int 8 i64_half

unfoldable pub at_end : Read Bool
at_end r = ok (r.offset == length r.bytes, r)

unfoldable pub remaining : Read ℕ
remaining r = ok (length r.bytes - r.offset, r)
