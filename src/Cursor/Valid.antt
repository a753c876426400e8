-- ===== src/Cursor/Valid.antt =====
-- crates/protocol/src/cursor.rs: the batches that `validate_cursor_batch` passes, described by themselves.
use glacialcast.Prelude.{
  ℕ, ◌+◌, ◌*◌, ◌^◌, ◌≤◌, ◌<◌, ◌≡◌, ◌≢◌, Bool, true, false, Option, none, some, List, [], ◌∷◌, All,
  length, ℤ, pos,
}
use glacialcast.Cursor.Format.{
  CursorBitmap, CursorEvent, CursorBatch, max_cursor_plaintext_len, max_cursor_bitmap_side,
  micropixels,
}

-- `z` lies between two bounds, the lower one inclusive.
abbrev pub Within : ℤ → ℕ → Type 0
Within z limit = (n : ℕ) × (z ≡ pos n) × (n < limit)

-- The image has at most 512 pixels a side, its hotspot lies in it, and it has four bytes a pixel.
pub record BitmapIsValid (bitmap_id : ℕ) (b : CursorBitmap) : Type 0 where
  pub named : 0 < bitmap_id
  pub wide : (0 < b.width) × (b.width ≤ max_cursor_bitmap_side)
  pub high : (0 < b.height) × (b.height ≤ max_cursor_bitmap_side)
  pub hotspot_x : Within b.hotspot_x b.width
  pub hotspot_y : Within b.hotspot_y b.height
  pub exact : length b.rgba ≡ b.width * b.height * 4

abbrev pub OptionIsValid : ℕ → Option CursorBitmap → Type 0
OptionIsValid bitmap_id none = Unit {0}
OptionIsValid bitmap_id (some b) = BitmapIsValid bitmap_id b

-- A visible cursor lies in the source; a hidden one has no position and no image.
abbrev pub PositionIsValid : ℕ → ℕ → ℤ → ℤ → Bool → Option CursorBitmap → Type 0
PositionIsValid max_x max_y x y true bitmap = Within x (max_x + 1) × Within y (max_y + 1)
PositionIsValid max_x max_y x y false bitmap = (x ≡ pos 0) × (y ≡ pos 0) × (bitmap ≡ none)

pub record EventIsValid (max_x max_y : ℕ) (e : CursorEvent) : Type 0 where
  pub placed : PositionIsValid max_x max_y e.x_micropixels e.y_micropixels e.visible e.bitmap
  pub image : OptionIsValid e.bitmap_id e.bitmap

abbrev pub NotBefore : Option ℕ → ℕ → Type 0
NotBefore none t = Unit {0}
NotBefore (some previous) t = previous ≤ t

-- No event is earlier than the one before it.
abbrev pub Follows : Option ℕ → List CursorEvent → Type 0
Follows previous [] = Unit {0}
Follows previous (e ∷ es) = NotBefore previous e.timestamp × Follows (some e.timestamp) es

abbrev pub bitmap_len : Option CursorBitmap → ℕ
bitmap_len none = 0
bitmap_len (some b) = 20 + length b.rgba

abbrev pub total_len : List CursorEvent → ℕ
total_len [] = 0
total_len (e ∷ es) = 33 + bitmap_len e.bitmap + total_len es

pub record BatchIsValid (b : CursorBatch) : Type 0 where
  pub wide : (0 < b.source_width) × (b.source_width ≤ 65_535)
  pub high : (0 < b.source_height) × (b.source_height ≤ 65_535)
  pub some_event : b.events ≢ []
  pub ordered : Follows none b.events
  pub each : All (EventIsValid (micropixels b.source_width) (micropixels b.source_height)) b.events
  pub count : length b.events < 2 ^ 16
  pub bounded : 14 + total_len b.events ≤ max_cursor_plaintext_len
