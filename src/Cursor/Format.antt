-- ===== src/Cursor/Format.antt =====
-- crates/protocol/src/cursor.rs: the cursor data, its validation and its encoder.
-- A `Uuid` is its 128-bit value, so that the nil one is 0.
use glacialcast.Prelude.{
  is_empty, ℕ, ◌+◌, ◌*◌, ◌^◌, Bool, true, false, not, ◌||◌, Option, none, some, List, [], ◌∷◌, ◌++◌,
  Bytes, length, to_be_bytes, ℤ, pos, negsuc, to_word, Result, ok, ◌>>=◌, ◌>>◌, fail_if, ok_or, ltb,
  leb, ◌==◌, if◌then◌else◌, checked_add, checked_mul, try_from, u8_of_bool, is_some, is_some_and,
  is_some_eq, bit_or,
}

abbrev pub max_cursor_plaintext_len : ℕ
max_cursor_plaintext_len = 4 * 1024 * 1024

abbrev pub max_cursor_bitmap_side : ℕ
max_cursor_bitmap_side = 512

abbrev pub cursor_batch_header_len : ℕ
cursor_batch_header_len = 14

abbrev pub cursor_event_len : ℕ
cursor_event_len = 33

abbrev pub cursor_bitmap_header_len : ℕ
cursor_bitmap_header_len = 20

-- The bytes of `GCC1`.
abbrev pub magic : Bytes
magic = 0x47 ∷ 0x43 ∷ 0x43 ∷ 0x31 ∷ []

pub data CursorError : Type 0 where
  too_large malformed : CursorError

pub record CursorBitmap : Type 0 where
  pub width : ℕ
  pub height : ℕ
  pub hotspot_x : ℤ
  pub hotspot_y : ℤ
  pub rgba : Bytes

pub record CursorEvent : Type 0 where
  pub timestamp : ℕ
  pub x_micropixels : ℤ
  pub y_micropixels : ℤ
  pub visible : Bool
  pub bitmap_id : ℕ
  pub bitmap : Option CursorBitmap

pub record CursorBatch : Type 0 where
  pub source_width : ℕ
  pub source_height : ℕ
  pub events : List CursorEvent

pub record CursorContext : Type 0 where
  pub stream_id : ℕ
  pub epoch_id : ℕ
  pub sequence : ℕ
  pub start_timestamp : ℕ
  pub source_width : ℕ
  pub source_height : ℕ

-- `i64` in a word of 2 ^ 64 values, `i32` in one of 2 ^ 32.
abbrev pub i64_half : ℕ
i64_half = 2 ^ 63

abbrev pub i32_half : ℕ
i32_half = 2 ^ 31

-- `(0..=max).contains(&z)`, `z != 0`, `z < 0` and `z.unsigned_abs()`.
abbrev pub in_span : ℕ → ℤ → Bool
in_span max (pos n) = leb n max
in_span max (negsuc n) = false

abbrev pub is_nonzero : ℤ → Bool
is_nonzero (pos n) = not (n == 0)
is_nonzero (negsuc n) = true

abbrev pub is_negative : ℤ → Bool
is_negative (pos n) = false
is_negative (negsuc n) = true

abbrev pub unsigned_abs : ℤ → ℕ
unsigned_abs (pos n) = n
unsigned_abs (negsuc n) = n + 1

-- The bitmap's part of `encoded_len`.
abbrev pub add_bitmap_len : ℕ → Option CursorBitmap → Option ℕ
add_bitmap_len n none = some n
add_bitmap_len n (some b) = elim (checked_add n cursor_bitmap_header_len) [
  | none ↦ none
  | some m ↦ checked_add m (length b.rgba)
]

unfoldable pub encoded_len_from : ℕ → List CursorEvent → Result CursorError ℕ
encoded_len_from n [] = ok n
encoded_len_from n (e ∷ es) = do
  with_event ← ok_or (checked_add n cursor_event_len) too_large
  with_bitmap ← ok_or (add_bitmap_len with_event e.bitmap) too_large
  fail_if (ltb max_cursor_plaintext_len with_bitmap) too_large
  encoded_len_from with_bitmap es

unfoldable pub encoded_len : CursorBatch → Result CursorError ℕ
encoded_len batch = do
  try_from (2 ^ 16) (length batch.events) too_large
  encoded_len_from cursor_batch_header_len batch.events

-- `width.checked_mul(height)`, then `checked_mul(4)`.
unfoldable pub expected_len : CursorBitmap → Option ℕ
expected_len b = elim (checked_mul b.width b.height) [
  | none ↦ none
  | some pixels ↦ checked_mul pixels 4
]

unfoldable pub validate_position : ℕ → ℕ → CursorEvent → Result CursorError (Unit {0})
validate_position max_x max_y e =
    if e.visible
    then fail_if (not (in_span max_x e.x_micropixels) || not (in_span max_y e.y_micropixels))
        malformed
    else fail_if (is_nonzero e.x_micropixels || is_nonzero e.y_micropixels || is_some e.bitmap)
        malformed

unfoldable pub bitmap_refused : ℕ → CursorBitmap → Bool
unfolding expected_len
bitmap_refused bitmap_id b =
    bitmap_id == 0
    || b.width == 0
    || b.height == 0
    || ltb max_cursor_bitmap_side b.width
    || ltb max_cursor_bitmap_side b.height
    || is_negative b.hotspot_x
    || is_negative b.hotspot_y
    || leb b.width (unsigned_abs b.hotspot_x)
    || leb b.height (unsigned_abs b.hotspot_y)
    || not (is_some_eq (expected_len b) (length b.rgba))

unfoldable pub validate_bitmap : ℕ → Option CursorBitmap → Result CursorError (Unit {0})
validate_bitmap bitmap_id none = ok tt
validate_bitmap bitmap_id (some b) = fail_if (bitmap_refused bitmap_id b) malformed

unfoldable pub validate_events : ℕ → ℕ → Option ℕ → List CursorEvent → Result CursorError (Unit {0})
validate_events max_x max_y previous [] = ok tt
validate_events max_x max_y previous (e ∷ es) = do
  fail_if (is_some_and previous (ltb e.timestamp)) malformed
  validate_position max_x max_y e
  validate_bitmap e.bitmap_id e.bitmap
  validate_events max_x max_y (some e.timestamp) es

unfoldable pub batch_refused : CursorBatch → Bool
batch_refused batch =
    batch.source_width == 0
    || batch.source_height == 0
    || ltb 65_535 batch.source_width
    || ltb 65_535 batch.source_height
    || is_empty batch.events

-- `i64::from(side) * 1_000_000`, which cannot overflow once the side is at most 65535.
abbrev pub micropixels : ℕ → ℕ
micropixels side = side * 1_000_000

unfoldable pub validate_cursor_batch : CursorBatch → Result CursorError (Unit {0})
unfolding batch_refused
validate_cursor_batch batch = do
  fail_if (batch_refused batch) malformed
  validate_events (micropixels batch.source_width) (micropixels batch.source_height) none
      batch.events
  encoded_len batch
  ok tt

abbrev pub first_timestamp : List CursorEvent → Option ℕ
first_timestamp [] = none
first_timestamp (e ∷ es) = some e.timestamp

unfoldable pub validate_cursor_context : CursorBatch → CursorContext → Result CursorError (Unit {0})
validate_cursor_context batch context =
    fail_if
      (context.stream_id == 0
        || context.epoch_id == 0
        || not (batch.source_width == context.source_width)
        || not (batch.source_height == context.source_height)
        || not (is_some_eq (first_timestamp batch.events) context.start_timestamp))
      malformed

-- `u8::from(visible) | (u8::from(bitmap.is_some()) << 1)`.
unfoldable pub flags : Bool → Bool → ℕ
flags visible has_bitmap = bit_or (u8_of_bool visible) (u8_of_bool has_bitmap * 2)

unfoldable pub encode_bitmap : Option CursorBitmap → Result CursorError Bytes
encode_bitmap none = ok []
encode_bitmap (some b) = do
  rgba_len ← try_from (2 ^ 32) (length b.rgba) too_large
  ok (
      to_be_bytes 4 b.width
      ++ (to_be_bytes 4 b.height
          ++ (to_be_bytes 4 (to_word i32_half b.hotspot_x)
              ++ (to_be_bytes 4 (to_word i32_half b.hotspot_y)
                  ++ (to_be_bytes 4 rgba_len ++ b.rgba)))))

unfoldable pub encode_event : CursorEvent → Result CursorError Bytes
encode_event e = do
  bitmap ← encode_bitmap e.bitmap
  ok (
      to_be_bytes 8 e.timestamp
      ++ (to_be_bytes 8 (to_word i64_half e.x_micropixels)
          ++ (to_be_bytes 8 (to_word i64_half e.y_micropixels)
              ++ (to_be_bytes 1 (flags e.visible (is_some e.bitmap))
                  ++ (to_be_bytes 8 e.bitmap_id ++ bitmap)))))

unfoldable pub encode_events : List CursorEvent → Result CursorError Bytes
encode_events [] = ok []
encode_events (e ∷ es) = do event ← encode_event e; rest ← encode_events es; ok (event ++ rest)

unfoldable pub encode_cursor_batch : CursorContext → CursorBatch → Result CursorError Bytes
encode_cursor_batch context batch = do
  validate_cursor_batch batch
  validate_cursor_context batch context
  encoded_len batch
  event_count ← try_from (2 ^ 16) (length batch.events) too_large
  events ← encode_events batch.events
  ok (
      magic
      ++ (to_be_bytes 4 batch.source_width
          ++ (to_be_bytes 4 batch.source_height ++ (to_be_bytes 2 event_count ++ events))))
