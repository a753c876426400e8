-- ===== src/Cursor/EventImages.antt =====
-- crates/protocol/src/cursor.rs: the bytes of a cursor event that the decoder accepts, against what the
-- encoder writes for it.
use glacialcast.Prelude.{
  ℕ, ◌^◌, ◌<◌, ◌≡◌, refl, sym, ap, ◌∙◌, subst, Bool, true, false, not, ◌||◌, Option, none, some, [],
  append-nil, arith, Bytes, length, ok, fail_if, ◌==◌, ==_iff, is_some, bit_and, all_below,
  all_below_sound,
}
use glacialcast.Cursor.Format.{
  CursorError, CursorBitmap, CursorEvent, malformed, i32_half, i64_half, flags, encode_bitmap,
  encode_event,
}
use glacialcast.Cursor.Reader.{lift, take_bytes, uint, i32, i64}
use glacialcast.Cursor.Decode.{read_bitmap, read_bitmap_if, read_event}
use glacialcast.Cursor.Spans.{
  Writes, Writes-bind, Writes-pure, Writes-lift, uint-Writes, int-Writes, take_bytes-Writes,
}
use glacialcast.Cursor.Shapes.{bitmap_image, event_image}
use glacialcast.Cursor.RoundTrip.{BitmapFits, OptionFits, EventFits}

pub encode_bitmap-image :
    (b : CursorBitmap) → length b.rgba < 2 ^ 32 → encode_bitmap (some b) ≡ ok (bitmap_image b)
unfolding encode_bitmap
encode_bitmap-image b h = ground arith

pub encode_event-image :
    (e : CursorEvent) (bitmap : Bytes)
    → encode_bitmap e.bitmap ≡ ok bitmap
    → encode_event e ≡ ok (event_image e bitmap)
unfolding encode_event
encode_event-image e bitmap h = rw h

abbrev pub BitmapWritten : CursorBitmap → Bytes → Type 0
BitmapWritten b xs = (xs ≡ bitmap_image b) × (length b.rgba < 2 ^ 32) × BitmapFits b

pub read_bitmap-Writes : Writes read_bitmap BitmapWritten
unfolding read_bitmap
read_bitmap-Writes = Writes-bind (uint 4) _ _ _ (uint-Writes 4) λ width x1 q1.
    Writes-bind (uint 4) _ _ _ (uint-Writes 4) λ height x2 q2.
      Writes-bind i32 _ _ _ (int-Writes 4 i32_half refl) λ hotspot_x x3 q3.
        Writes-bind i32 _ _ _ (int-Writes 4 i32_half refl) λ hotspot_y x4 q4.
          Writes-bind (uint 4) _ _ _ (uint-Writes 4) λ rgba_len x5 q5.
            Writes-bind (take_bytes rgba_len) _ _ _ (take_bytes-Writes rgba_len) λ rgba x6 q6.
              Writes-pure _ _ (
                cc (q1.1, q2.1, q3.1, q4.1, q5.1, q6.0, q6.1, append-nil x6),
                subst (λ n. n < 2 ^ 32) (sym q6.1) q5.0,
                record {
                  width = q1.0;
                  height = q2.0;
                  hotspot_x = q3.0;
                  hotspot_y = q4.0;
                  rgba = q6.2;
                },
              )

-- The two flags of a byte that passes the check, over all 256 of them.
pub flags_table :
    all_below 256 (λ n.
      not (bit_and n 0xfc == 0) || n == flags (not (bit_and n 1 == 0)) (not (bit_and n 2 == 0)))
    ≡ true
unfolding all_below flags
flags_table = refl

pub flags_of_byte :
    (n : ℕ)
    → n < 256
    → not (bit_and n 0xfc == 0) ≡ false
    → n ≡ flags (not (bit_and n 1 == 0)) (not (bit_and n 2 == 0))
flags_of_byte n h e = (==_iff n _).0 (drop_left _ _ e (all_below_sound 256 _ n h flags_table))
  where
    drop_left : (a b : Bool) → a ≡ false → (a || b) ≡ true → b ≡ true
    drop_left true b p q = absurd (cc p)
    drop_left false b p q = q

abbrev pub OptionWritten : Bool → Option CursorBitmap → Bytes → Type 0
OptionWritten has o xs = (is_some o ≡ has) × (encode_bitmap o ≡ ok xs) × OptionFits o

pub encode_none : encode_bitmap none ≡ ok []
unfolding encode_bitmap
encode_none = refl

pub read_bitmap_if-Writes : (has : Bool) → Writes (read_bitmap_if has) (OptionWritten has)
unfolding read_bitmap_if
read_bitmap_if-Writes true = Writes-bind read_bitmap _ _ _ read_bitmap-Writes λ b xs q.
    Writes-pure _ _ (refl, encode_bitmap-image b q.1 ∙ ap ok (sym q.0 ∙ sym (append-nil xs)), q.2)
read_bitmap_if-Writes false = Writes-pure _ _ (refl, encode_none, tt)

abbrev pub EventWritten : CursorEvent → Bytes → Type 0
EventWritten e xs = (encode_event e ≡ ok xs) × EventFits e

pub not_failed : (t : Bool) (x : CursorError) (u : Unit {0}) → fail_if t x ≡ ok u → t ≡ false
not_failed t x u h = ground arith

pub read_event-Writes : Writes read_event EventWritten
unfolding read_event
read_event-Writes = Writes-bind (uint 8) _ _ _ (uint-Writes 8) λ timestamp x1 q1.
    Writes-bind i64 _ _ _ (int-Writes 8 i64_half refl) λ x_micropixels x2 q2.
      Writes-bind i64 _ _ _ (int-Writes 8 i64_half refl) λ y_micropixels x3 q3.
        Writes-bind (uint 1) _ _ _ (uint-Writes 1) λ mask x4 q4.
          Writes-bind (lift (fail_if (not (bit_and mask 0xfc == 0)) malformed)) _
            (λ u xs. (fail_if (not (bit_and mask 0xfc == 0)) malformed ≡ ok u) × (xs ≡ [])) _
            (Writes-lift _ _ (λ u w. (w, refl)))
            λ u x5 q5. Writes-bind (uint 8) _ _ _ (uint-Writes 8) λ bitmap_id x6 q6.
              Writes-bind (read_bitmap_if (not (bit_and mask 2 == 0))) _ _ _
                (read_bitmap_if-Writes _)
                λ bitmap x7 q7. Writes-pure _ _ (
                  let shape : mask ≡ flags (not (bit_and mask 1 == 0)) (is_some bitmap) =
                        flags_of_byte mask q4.0 (not_failed _ _ _ q5.0)
                        ∙ ap (flags (not (bit_and mask 1 == 0))) (sym q7.0) in
                      encode_event-image _ x7 q7.1
                      ∙ ap ok (sym (cc (q1.1, q2.1, q3.1, q4.1, q5.1, q6.1, append-nil x7, shape))),
                  record {
                    timestamp = q1.0;
                    x_micropixels = q2.0;
                    y_micropixels = q3.0;
                    bitmap_id = q6.0;
                    bitmap = q7.2;
                  },
                )
