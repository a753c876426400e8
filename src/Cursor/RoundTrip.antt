-- ===== src/Cursor/RoundTrip.antt =====
-- crates/protocol/src/cursor.rs: `decode_cursor_batch` after `encode_cursor_batch`.
use glacialcast.Prelude.{
  ℕ, suc, ◌*◌, ◌^◌, ◌≤◌, ◌<◌, ◌≡◌, refl, sym, ap, ◌∙◌, subst, subst₂, Bool, true, false, not,
  Option, none, some, List, [], ◌∷◌, ◌++◌, arith, Bytes, IsByte, All, length, InRange, ok, fail_if,
  ltb, ◌==◌, >>=-eq-ok, is_some, bit_and,
}
use glacialcast.Cursor.Format.{
  CursorBitmap, CursorEvent, CursorBatch, CursorContext, malformed, magic, cursor_event_len,
  max_cursor_plaintext_len, i32_half, i64_half, flags, encode_bitmap, encode_event, encode_events,
  encode_cursor_batch, validate_cursor_batch, validate_cursor_context,
}
use glacialcast.Cursor.Reader.{Reader, new, ◌>>=◌, lift, pure, take_bytes, uint, i32, i64}
use glacialcast.Cursor.Decode.{
  result, read_bitmap, read_bitmap_if, read_event, read_events, read_batch, decode_cursor_batch,
}
use glacialcast.Cursor.Shapes.{
  bitmap_image, rgba_small, bitmap_shape, event_shape, length-encode_events,
  length-encode_cursor_batch, encode_cursor_batch-Encoded, batch_image,
}
use glacialcast.Cursor.Moves.{
  Reads, Reads-bind, Reads-map, pure-Reads, lift-Reads, uint-Reads, int-Reads, take_bytes-Reads,
  ReadsTo, ReadsTo-bind, ReadsTo-last, ReadsTo-pure, ReadsTo-remaining, ReadsTo-at_end, bind_ok,
}

-- The ranges of the fields' types.
pub record BitmapFits (b : CursorBitmap) : Type 0 where
  pub width : b.width < 2 ^ 32
  pub height : b.height < 2 ^ 32
  pub hotspot_x : InRange i32_half b.hotspot_x
  pub hotspot_y : InRange i32_half b.hotspot_y
  pub rgba : All IsByte b.rgba

abbrev pub OptionFits : Option CursorBitmap → Type 0
OptionFits none = Unit {0}
OptionFits (some b) = BitmapFits b

pub record EventFits (e : CursorEvent) : Type 0 where
  pub timestamp : e.timestamp < 2 ^ 64
  pub x_micropixels : InRange i64_half e.x_micropixels
  pub y_micropixels : InRange i64_half e.y_micropixels
  pub bitmap_id : e.bitmap_id < 2 ^ 64
  pub bitmap : OptionFits e.bitmap

pub record BatchFits (b : CursorBatch) : Type 0 where
  pub source_width : b.source_width < 2 ^ 32
  pub source_height : b.source_height < 2 ^ 32
  pub events : All EventFits b.events

read_bitmap-Reads :
    (b : CursorBitmap)
    → BitmapFits b
    → length b.rgba < 2 ^ 32
    → Reads read_bitmap (bitmap_image b) b
unfolding read_bitmap
read_bitmap-Reads b fits size = Reads-bind (uint 4) _ _ _ _ _ (uint-Reads 4 b.width fits.width) (
    Reads-bind (uint 4) _ _ _ _ _ (uint-Reads 4 b.height fits.height) (
      Reads-bind i32 _ _ _ _ _ (int-Reads 4 i32_half b.hotspot_x fits.hotspot_x refl) (
        Reads-bind i32 _ _ _ _ _ (int-Reads 4 i32_half b.hotspot_y fits.hotspot_y refl) (
          Reads-bind (uint 4) _ _ _ _ _ (uint-Reads 4 (length b.rgba) size)
            (Reads-map (take_bytes (length b.rgba)) _ _ _ (take_bytes-Reads b.rgba))))))

flags-lt : (v b : Bool) → flags v b < 256
unfolding flags
flags-lt true true = omega arith
flags-lt true false = omega arith
flags-lt false b = elim b as (λ x. flags false x < 256) [ true ↦ omega arith | false ↦ omega arith ]

flags_fields :
    (v b : Bool)
    → (not (bit_and (flags v b) 0xfc == 0) ≡ false)
      × (not (bit_and (flags v b) 2 == 0) ≡ b)
      × (not (bit_and (flags v b) 1 == 0) ≡ v)
unfolding flags
flags_fields true true = (refl, refl, refl)
flags_fields true false = (refl, refl, refl)
flags_fields false true = (refl, refl, refl)
flags_fields false false = (refl, refl, refl)

no_bytes : (xs : Bytes) → encode_bitmap none ≡ ok xs → [] ≡ xs
unfolding encode_bitmap
no_bytes xs e = ground arith

read_bitmap_if-Reads :
    (o : Option CursorBitmap) (xs : Bytes)
    → OptionFits o
    → encode_bitmap o ≡ ok xs
    → Reads (read_bitmap_if (is_some o)) xs o
unfolding read_bitmap_if
read_bitmap_if-Reads none xs fits e =
    subst (λ ys. Reads {A = Option CursorBitmap} (pure none) ys none) (no_bytes xs e)
      (pure-Reads none)
read_bitmap_if-Reads (some b) xs fits e =
    subst (λ ys. Reads (read_bitmap >>= λ v. pure (some v)) ys (some b)) (sym (bitmap_shape b xs e))
      (Reads-map read_bitmap some _ b (read_bitmap-Reads b fits (rgba_small b xs e)))

read_event-Reads :
    (e : CursorEvent) (xs : Bytes) → EventFits e → encode_event e ≡ ok xs → Reads read_event xs e
unfolding read_event
read_event-Reads e xs fits h =
    let (bitmap, e1, e2) = event_shape e xs h in
    let (checked, has, shown) = flags_fields e.visible (is_some e.bitmap) in
    let mask : ℕ = flags e.visible (is_some e.bitmap) in
    let bitmap_read : Reads (read_bitmap_if (not (bit_and mask 2 == 0))) bitmap e.bitmap =
      subst (λ t. Reads (read_bitmap_if t) bitmap e.bitmap) (sym has)
        (read_bitmap_if-Reads e.bitmap bitmap fits.bitmap e1) in
    subst₂ (Reads read_event) (sym e2) (ap (λ (v : Bool). record e { visible = v }) shown) (
      Reads-bind (uint 8) _ _ _ _ _ (uint-Reads 8 e.timestamp fits.timestamp) (
        Reads-bind i64 _ _ _ _ _ (int-Reads 8 i64_half e.x_micropixels fits.x_micropixels refl) (
          Reads-bind i64 _ _ _ _ _ (int-Reads 8 i64_half e.y_micropixels fits.y_micropixels refl) (
            Reads-bind (uint 1) _ _ _ _ _
              (uint-Reads 1 mask (flags-lt e.visible (is_some e.bitmap)))
              (Reads-bind (lift (fail_if (not (bit_and mask 0xfc == 0)) malformed)) _ [] _ tt _
                (lift-Reads _ tt (ap (λ (t : Bool). fail_if t malformed) checked))
                (Reads-bind (uint 8) _ _ _ _ _ (uint-Reads 8 e.bitmap_id fits.bitmap_id)
                  (Reads-map (read_bitmap_if (not (bit_and mask 2 == 0))) _ _ _ bitmap_read)))))))

read_events-Reads :
    (es : List CursorEvent) (xs : Bytes)
    → All EventFits es
    → encode_events es ≡ ok xs
    → Reads (read_events (length es)) xs es
unfolding read_events encode_events
read_events-Reads [] xs fits h =
    subst (λ ys. Reads {A = List CursorEvent} (pure []) ys [])
      (let none_left : [] ≡ xs = ground arith in none_left) (pure-Reads [])
read_events-Reads (e ∷ es) xs fits h =
    let (first, e1, h1) = >>=-eq-ok (encode_event e) _ h in
    let (rest, e2, h2) = >>=-eq-ok (encode_events es) _ h1 in
    let shape : first ++ rest ≡ xs = ground arith in
    subst (λ ys. Reads (read_events (suc (length es))) ys (e ∷ es)) shape
      (Reads-bind read_event _ first rest e (e ∷ es) (read_event-Reads e first fits.0 e1)
        (Reads-map (read_events (length es)) (◌∷◌ e) rest es (read_events-Reads es rest fits.1 e2)))

-- The rest of `read_batch` once the header is read, with the events and nothing else ahead.
read_batch-ReadsTo :
    (b : CursorBatch) (events : Bytes)
    → BatchFits b
    → length b.events < 2 ^ 16
    → encode_events b.events ≡ ok events
    → ReadsTo read_batch (batch_image b events) b
unfolding read_batch
read_batch-ReadsTo b events fits count e =
    ReadsTo-bind (take_bytes 4) _ magic _ _ _ (take_bytes-Reads magic) (
      ReadsTo-bind (uint 4) _ _ _ _ _ (uint-Reads 4 b.source_width fits.source_width) (
        ReadsTo-bind (uint 4) _ _ _ _ _ (uint-Reads 4 b.source_height fits.source_height) (
          ReadsTo-bind (uint 2) _ _ _ _ _ (uint-Reads 2 (length b.events) count) (
            ReadsTo-remaining _ _ _ (
              ReadsTo-bind
                (lift
                  (fail_if (ltb (length events) (length b.events * cursor_event_len)) malformed))
                _ [] _ tt _ (lift-Reads _ tt (ap (λ (t : Bool). fail_if t malformed) enough))
                (ReadsTo-last (read_events (length b.events)) _ events _ _
                  (read_events-Reads b.events events fits.events e)
                  (ReadsTo-at_end _ b (ReadsTo-pure b []))))))))
  where
    enough : ltb (length events) (length b.events * cursor_event_len) ≡ false
    enough = ground (arith, length-encode_events b.events events e)

decode_of_parts :
    (c : CursorContext) (b : CursorBatch) (bytes : Bytes) (end : Reader)
    → length bytes ≤ max_cursor_plaintext_len
    → read_batch (new bytes) ≡ ok (b, end)
    → validate_cursor_batch b ≡ ok tt
    → validate_cursor_context b c ≡ ok tt
    → decode_cursor_batch c bytes ≡ ok b
unfolding decode_cursor_batch
decode_of_parts c b bytes end bounded e valid in_context =
    let small : ltb max_cursor_plaintext_len (length bytes) ≡ false = ground arith in
    rw small
      (ap result {y = ok (b, end)} (bind_ok read_batch _ (new bytes) e ∙ rw (valid, in_context)))

-- A cursor batch whose fields fit their types and which encode_cursor_batch accepts in a
-- context is returned unchanged by decode_cursor_batch in that context.
pub decode-encode_cursor_batch :
    (c : CursorContext) (b : CursorBatch) (bytes : Bytes)
    → BatchFits b
    → encode_cursor_batch c b ≡ ok bytes
    → decode_cursor_batch c bytes ≡ ok b
decode-encode_cursor_batch c b bytes fits h =
    let w = encode_cursor_batch-Encoded c b bytes h in
    let (sized, bounded) = length-encode_cursor_batch c b bytes h in
    let (end, e) =
      read_batch-ReadsTo b w.events fits w.count w.encoded (new bytes)
        (record { inside = omega arith; small = omega arith; next = w.shape }) in
    decode_of_parts c b bytes end bounded e w.valid w.in_context
