-- ===== src/Cursor/Tests.antt =====
-- Concrete batches through the codec, and its theorems at concrete inputs.
use glacialcast.Prelude.{
  ◌≡◌, refl, true, false, none, some, [], ◌∷◌, ◌++◌, Bytes, pos, ok, err, to_be_bytes,
  from_be_bytes,
}
use glacialcast.Cursor.Format.{
  CursorEvent, CursorBatch, CursorBitmap, CursorContext, malformed, encode_cursor_batch,
  validate_cursor_batch, validate_cursor_context, validate_events, validate_position,
  validate_bitmap, bitmap_refused, encoded_len, encoded_len_from, encode_events, encode_event,
  encode_bitmap, flags,
}
use glacialcast.Cursor.Reader.{take_bytes, uint, int, at_end, remaining}
use glacialcast.Cursor.Decode.{
  decode_cursor_batch, read_batch, read_events, read_event, read_bitmap, read_bitmap_if,
}
use glacialcast.Cursor.Format.{max_cursor_plaintext_len}
use glacialcast.Cursor.Shapes.{length-encode_cursor_batch}
use glacialcast.Cursor.Valid.{BatchIsValid}
use glacialcast.Cursor.ValidBatch.{validate_cursor_batch_iff}
use glacialcast.Cursor.RoundTrip.{BatchFits, decode-encode_cursor_batch}
use glacialcast.Cursor.Canonical.{encode-decode_cursor_batch}
use glacialcast.Prelude.{◌↔◌, ◌≤◌, arith}

abbrev dot : CursorBitmap
dot = record {
  width = 1;
  height = 1;
  hotspot_x = pos 0;
  hotspot_y = pos 0;
  rgba = 1 ∷ 2 ∷ 3 ∷ 255 ∷ [];
}

abbrev shown : CursorEvent
shown = record {
  timestamp = 90;
  x_micropixels = pos 1_500_000;
  y_micropixels = pos 0;
  visible = true;
  bitmap_id = 7;
  bitmap = some dot;
}

abbrev hidden : CursorEvent
hidden = record {
  timestamp = 95;
  x_micropixels = pos 0;
  y_micropixels = pos 0;
  visible = false;
  bitmap_id = 0;
  bitmap = none;
}

abbrev screen : CursorBatch
screen = record { source_width = 1920; source_height = 1080; events = shown ∷ hidden ∷ [] }

abbrev here : CursorContext
here = record {
  stream_id = 1;
  epoch_id = 2;
  sequence = 3;
  start_timestamp = 90;
  source_width = 1920;
  source_height = 1080;
}

abbrev dot_bytes : Bytes
dot_bytes =
    0 ∷ 0 ∷ 0 ∷ 1 ∷ 0 ∷ 0 ∷ 0 ∷ 1 ∷ 0 ∷ 0 ∷ 0 ∷ 0 ∷ 0 ∷ 0 ∷ 0 ∷ 0 ∷ 0 ∷ 0 ∷ 0 ∷ 4 ∷ 1 ∷ 2 ∷ 3 ∷ 255
    ∷ []

abbrev screen_bytes : Bytes
screen_bytes =
    (0x47 ∷ 0x43 ∷ 0x43 ∷ 0x31 ∷ 0 ∷ 0 ∷ 7 ∷ 0x80 ∷ 0 ∷ 0 ∷ 4 ∷ 0x38 ∷ 0 ∷ 2 ∷ [])
    ++ ((0 ∷ 0 ∷ 0 ∷ 0 ∷ 0 ∷ 0 ∷ 0 ∷ 90 ∷ 0 ∷ 0 ∷ 0 ∷ 0 ∷ 0 ∷ 22 ∷ 227 ∷ 96 ∷ [])
        ++ ((0 ∷ 0 ∷ 0 ∷ 0 ∷ 0 ∷ 0 ∷ 0 ∷ 0 ∷ 3 ∷ 0 ∷ 0 ∷ 0 ∷ 0 ∷ 0 ∷ 0 ∷ 0 ∷ 7 ∷ [])
            ++ (dot_bytes
                ++ ((0 ∷ 0 ∷ 0 ∷ 0 ∷ 0 ∷ 0 ∷ 0 ∷ 95 ∷ 0 ∷ 0 ∷ 0 ∷ 0 ∷ 0 ∷ 0 ∷ 0 ∷ 0 ∷ [])
                    ++ (0 ∷ 0 ∷ 0 ∷ 0 ∷ 0 ∷ 0 ∷ 0 ∷ 0 ∷ 0 ∷ 0 ∷ 0 ∷ 0 ∷ 0 ∷ 0 ∷ 0 ∷ 0 ∷ 0 ∷ [])))))

encode_screen : encode_cursor_batch here screen ≡ ok screen_bytes
unfolding encode_cursor_batch validate_cursor_batch validate_cursor_context validate_events
    validate_position validate_bitmap bitmap_refused encoded_len encoded_len_from encode_events
    encode_event encode_bitmap flags to_be_bytes
encode_screen = refl

decode_screen : decode_cursor_batch here screen_bytes ≡ ok screen
unfolding decode_cursor_batch read_batch read_events read_event read_bitmap read_bitmap_if
    take_bytes uint int at_end remaining from_be_bytes validate_cursor_batch validate_cursor_context
    validate_events validate_position validate_bitmap bitmap_refused encoded_len encoded_len_from
decode_screen = refl

decode_trailing : decode_cursor_batch here (screen_bytes ++ (0 ∷ [])) ≡ err malformed
unfolding decode_cursor_batch read_batch read_events read_event read_bitmap read_bitmap_if
    take_bytes uint int at_end remaining from_be_bytes
decode_trailing = refl

decode-encode_cursor_batch_example : decode_cursor_batch here screen_bytes ≡ ok screen
decode-encode_cursor_batch_example =
    decode-encode_cursor_batch here screen screen_bytes (omega arith) encode_screen

encode-decode_cursor_batch_example :
    (encode_cursor_batch here screen ≡ ok screen_bytes) × BatchFits screen
encode-decode_cursor_batch_example =
    encode-decode_cursor_batch here screen_bytes screen (omega arith) decode_screen

validate_cursor_batch_iff_example : (validate_cursor_batch screen ≡ ok tt) ↔ BatchIsValid screen
validate_cursor_batch_iff_example = validate_cursor_batch_iff screen

length-encode_cursor_batch_example :
    (encoded_len screen ≡ ok 104) × (104 ≤ max_cursor_plaintext_len)
length-encode_cursor_batch_example =
    length-encode_cursor_batch here screen screen_bytes encode_screen
