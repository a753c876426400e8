-- ===== src/Cursor/Decode.antt =====
-- crates/protocol/src/cursor.rs: `decode_cursor_batch`.
use glacialcast.Prelude.{
  same_bytes, ℕ, zero, suc, ◌*◌, Bool, not, Option, none, some, List, [], ◌∷◌, Bytes, length,
  Result, ok, err, fail_if, ltb, ◌==◌, bit_and,
}
use glacialcast.Cursor.Format.{
  CursorError, too_large, malformed, CursorBitmap, CursorEvent, CursorBatch, CursorContext,
  max_cursor_plaintext_len, cursor_event_len, magic, validate_cursor_batch, validate_cursor_context,
}
use glacialcast.Cursor.Reader.{
  ◌>>=◌, ◌>>◌, lift, pure, Reader, Read, new, take_bytes, uint, i32, i64, at_end, remaining,
}

unfoldable pub read_bitmap : Read CursorBitmap
read_bitmap = do
  width ← uint 4
  height ← uint 4
  hotspot_x ← i32
  hotspot_y ← i32
  rgba_len ← uint 4
  rgba ← take_bytes rgba_len
  pure (record {
    width = width;
    height = height;
    hotspot_x = hotspot_x;
    hotspot_y = hotspot_y;
    rgba = rgba;
  })

unfoldable pub read_bitmap_if : Bool → Read (Option CursorBitmap)
read_bitmap_if Bool.true = do bitmap ← read_bitmap; pure (some bitmap)
read_bitmap_if Bool.false = pure none

-- `!0b11` is 0xfc on a `u8`.
unfoldable pub read_event : Read CursorEvent
read_event = do
  timestamp ← uint 8
  x_micropixels ← i64
  y_micropixels ← i64
  flags ← uint 1
  lift (fail_if (not (bit_and flags 0xfc == 0)) malformed)
  bitmap_id ← uint 8
  bitmap ← read_bitmap_if (not (bit_and flags 2 == 0))
  pure (record {
    timestamp = timestamp;
    x_micropixels = x_micropixels;
    y_micropixels = y_micropixels;
    visible = not (bit_and flags 1 == 0);
    bitmap_id = bitmap_id;
    bitmap = bitmap;
  })

unfoldable pub read_events : ℕ → Read (List CursorEvent)
read_events zero = pure []
read_events (suc n) = do event ← read_event; events ← read_events n; pure (event ∷ events)

-- The part of `decode_cursor_batch` that reads the batch, up to the check for trailing bytes.
-- `event_count * 33` is below 2 ^ 22, so that the saturating product does not saturate.
unfoldable pub read_batch : Read CursorBatch
read_batch = do
  found ← take_bytes 4
  lift (fail_if (not (same_bytes found magic)) malformed)
  source_width ← uint 4
  source_height ← uint 4
  event_count ← uint 2
  left ← remaining
  lift (fail_if (ltb left (event_count * cursor_event_len)) malformed)
  events ← read_events event_count
  ended ← at_end
  lift (fail_if (not ended) malformed)
  pure (record { source_width = source_width; source_height = source_height; events = events })

-- The result of a method, without the reader that it leaves.
abbrev pub result : {A : Type 0} → Result CursorError (A × Reader) → Result CursorError A
result (ok (a, r)) = ok a
result (err e) = err e

-- The body of `decode_cursor_batch`, given the number of bytes.
unfoldable pub decode_body : CursorContext → ℕ → Read CursorBatch
decode_body context size = do
  lift (fail_if (ltb max_cursor_plaintext_len size) too_large)
  batch ← read_batch
  lift (validate_cursor_batch batch)
  lift (validate_cursor_context batch context)
  pure batch

unfoldable pub decode_cursor_batch : CursorContext → Bytes → Result CursorError CursorBatch
unfolding decode_body
decode_cursor_batch context bytes = result (decode_body context (length bytes) (new bytes))
