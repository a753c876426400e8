-- ===== src/Cursor/Shapes.antt =====
-- crates/protocol/src/cursor.rs: the bytes that the encoder writes, and `encoded_len` against their
-- number.
use glacialcast.Prelude.{
  ℕ, ◌+◌, ◌*◌, ◌≤◌, ◌<◌, ◌^◌, ◌≡◌, ap, ◌∙◌, Option, none, some, List, [], ◌∷◌, ◌++◌, arith, Bytes,
  try_from, length, length-append, to_be_bytes, length-to_be_bytes, to_word, ok, >>=-eq-ok, is_some,
}
use glacialcast.Cursor.Format.{
  CursorError, CursorBitmap, CursorEvent, CursorBatch, CursorContext, too_large, add_bitmap_len,
  encode_bitmap, encode_event, encode_events, encode_cursor_batch, encoded_len, magic,
  encoded_len_from, cursor_batch_header_len, max_cursor_plaintext_len, i32_half, i64_half, flags,
  validate_cursor_batch, validate_cursor_context,
}

abbrev pub bitmap_image : CursorBitmap → Bytes
bitmap_image b =
    to_be_bytes 4 b.width
    ++ (to_be_bytes 4 b.height
        ++ (to_be_bytes 4 (to_word i32_half b.hotspot_x)
            ++ (to_be_bytes 4 (to_word i32_half b.hotspot_y)
                ++ (to_be_bytes 4 (length b.rgba) ++ b.rgba))))

pub rgba_small :
    (b : CursorBitmap) (xs : Bytes) → encode_bitmap (some b) ≡ ok xs → length b.rgba < 2 ^ 32
unfolding encode_bitmap
rgba_small b xs e = ground arith

pub bitmap_shape :
    (b : CursorBitmap) (xs : Bytes) → encode_bitmap (some b) ≡ ok xs → xs ≡ bitmap_image b
unfolding encode_bitmap
bitmap_shape b xs e = ground arith

abbrev pub event_image : CursorEvent → Bytes → Bytes
event_image e bitmap =
    to_be_bytes 8 e.timestamp
    ++ (to_be_bytes 8 (to_word i64_half e.x_micropixels)
        ++ (to_be_bytes 8 (to_word i64_half e.y_micropixels)
            ++ (to_be_bytes 1 (flags e.visible (is_some e.bitmap))
                ++ (to_be_bytes 8 e.bitmap_id ++ bitmap))))

pub event_shape :
    (e : CursorEvent) (xs : Bytes)
    → encode_event e ≡ ok xs
    → (bitmap : Bytes) × (encode_bitmap e.bitmap ≡ ok bitmap) × (xs ≡ event_image e bitmap)
unfolding encode_event
event_shape e xs h =
    let (bitmap, e1, e2) = >>=-eq-ok (encode_bitmap e.bitmap) _ h in (bitmap, e1, ground arith)

ruleset sizes = (length-append, length-to_be_bytes)

abbrev bitmap_len : Option CursorBitmap → ℕ
bitmap_len none = 0
bitmap_len (some b) = 20 + length b.rgba

length-encode_bitmap :
    (o : Option CursorBitmap) (xs : Bytes) → encode_bitmap o ≡ ok xs → length xs ≡ bitmap_len o
length-encode_bitmap none xs h = unfold encode_bitmap in ground arith
length-encode_bitmap (some b) xs h = ap length (bitmap_shape b xs h) ∙ simp sizes (omega arith)

length-encode_event :
    (e : CursorEvent) (xs : Bytes) → encode_event e ≡ ok xs → length xs ≡ 33 + bitmap_len e.bitmap
length-encode_event e xs h =
    let (bitmap, e1, e2) = event_shape e xs h in
    ap length e2 ∙ simp sizes (omega (arith, length-encode_bitmap e.bitmap bitmap e1))

add_bitmap_len_lem :
    (n m : ℕ) (o : Option CursorBitmap) → add_bitmap_len n o ≡ some m → m ≡ n + bitmap_len o
add_bitmap_len_lem n m none h = ground arith
add_bitmap_len_lem n m (some b) h = ground arith

encoded_len_step :
    (n m : ℕ) (e : CursorEvent) (es : List CursorEvent)
    → encoded_len_from n (e ∷ es) ≡ ok m
    → (n + 33 + bitmap_len e.bitmap ≤ max_cursor_plaintext_len)
      × (encoded_len_from (n + 33 + bitmap_len e.bitmap) es ≡ ok m)
unfolding encoded_len_from
encoded_len_step n m e es h = (ground arith, ground arith)

encoded_len_from-length :
    (n m : ℕ) (es : List CursorEvent) (xs : Bytes)
    → encoded_len_from n es ≡ ok m
    → encode_events es ≡ ok xs
    → (m ≡ n + length xs) × (n ≤ max_cursor_plaintext_len → m ≤ max_cursor_plaintext_len)
unfolding encoded_len_from encode_events
encoded_len_from-length n m [] xs h k = ground arith
encoded_len_from-length n m (e ∷ es) xs h k =
    let (first, e1, k1) = >>=-eq-ok (encode_event e) _ k in
    let (rest, e2, k2) = >>=-eq-ok (encode_events es) _ k1 in
    let (room, h1) = encoded_len_step n m e es h in
    let (total, bound) = encoded_len_from-length (n + 33 + bitmap_len e.bitmap) m es rest h1 e2 in
    let shape : first ++ rest ≡ xs = ground arith in
    (
      omega
          (arith, total, length-encode_event e first e1, length-append first rest, ap length shape),
      λ _. bound room,
    )

-- Every event takes 33 bytes at least.
pub length-encode_events :
    (es : List CursorEvent) (xs : Bytes) → encode_events es ≡ ok xs → length es * 33 ≤ length xs
unfolding encode_events
length-encode_events [] xs h = omega arith
length-encode_events (e ∷ es) xs h =
    let (first, e1, h1) = >>=-eq-ok (encode_event e) _ h in
    let (rest, e2, h2) = >>=-eq-ok (encode_events es) _ h1 in
    let shape : first ++ rest ≡ xs = ground arith in
    omega (
      arith,
      length-encode_events es rest e2,
      length-encode_event e first e1,
      length-append first rest,
      ap length shape,
    )

abbrev pub batch_image : CursorBatch → Bytes → Bytes
batch_image b events =
    magic
    ++ (to_be_bytes 4 b.source_width
        ++ (to_be_bytes 4 b.source_height ++ (to_be_bytes 2 (length b.events) ++ events)))

-- What an encoder that succeeds has checked and written.
pub record Encoded (c : CursorContext) (b : CursorBatch) (bytes : Bytes) : Type 0 where
  pub events : Bytes
  pub valid : validate_cursor_batch b ≡ ok tt
  pub in_context : validate_cursor_context b c ≡ ok tt
  pub size : ℕ
  pub measured : encoded_len b ≡ ok size
  pub count : length b.events < 2 ^ 16
  pub encoded : encode_events b.events ≡ ok events
  pub shape : bytes ≡ batch_image b events

pub encode_cursor_batch-Encoded :
    (c : CursorContext) (b : CursorBatch) (bytes : Bytes)
    → encode_cursor_batch c b ≡ ok bytes
    → Encoded c b bytes
unfolding encode_cursor_batch
encode_cursor_batch-Encoded c b bytes h =
    let (u1, e1, h1) = >>=-eq-ok (validate_cursor_batch b) _ h in
    let (u2, e2, h2) = >>=-eq-ok (validate_cursor_context b c) _ h1 in
    let (size, e3, h3) = >>=-eq-ok (encoded_len b) _ h2 in
    let (count, e4, h4) =
      >>=-eq-ok {E = CursorError} (try_from (2 ^ 16) (length b.events) too_large) _ h3 in
    let (events, e5, h5) = >>=-eq-ok (encode_events b.events) _ h4 in
    record {
      events = events;
      valid = e1;
      in_context = e2;
      size = size;
      measured = e3;
      count = ground arith;
      encoded = e5;
      shape = ground arith;
    }

measured_from :
    (b : CursorBatch) (n : ℕ)
    → encoded_len b ≡ ok n
    → encoded_len_from cursor_batch_header_len b.events ≡ ok n
unfolding encoded_len
measured_from b n h = ground arith

length-batch_image :
    (b : CursorBatch) (events : Bytes) → length (batch_image b events) ≡ 14 + length events
length-batch_image b events = simp sizes (omega arith)

-- When encode_cursor_batch succeeds, encoded_len gives the number of bytes written, and that
-- number is at most MAX_CURSOR_PLAINTEXT_LEN.
pub length-encode_cursor_batch :
    (c : CursorContext) (b : CursorBatch) (bytes : Bytes)
    → encode_cursor_batch c b ≡ ok bytes
    → (encoded_len b ≡ ok (length bytes)) × (length bytes ≤ max_cursor_plaintext_len)
length-encode_cursor_batch c b bytes h =
    let w = encode_cursor_batch-Encoded c b bytes h in
    let (total, bound) =
      encoded_len_from-length cursor_batch_header_len w.size b.events w.events
        (measured_from b w.size w.measured) w.encoded in
    let same : w.size ≡ length bytes =
      omega (arith, total, ap length w.shape, length-batch_image b w.events) in
    (w.measured ∙ ap ok same, omega (arith, bound (omega arith), same))
