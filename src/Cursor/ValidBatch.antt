-- ===== src/Cursor/ValidBatch.antt =====
-- crates/protocol/src/cursor.rs: `validate_cursor_batch` against the description of valid batches.
use glacialcast.Prelude.{
  is_empty, ℕ, ◌+◌, ◌^◌, ◌≤◌, ◌<◌, ◌≡◌, ◌≢◌, ◌↔◌, refl, sym, ap, ◌∙◌, Bool, true, false, not, ◌||◌,
  Option, none, some, List, [], ◌∷◌, arith, All, length, ℤ, pos, negsuc, ok, fail_if, >>=-eq-ok,
  try_from, ltb, if◌then◌else◌, ◌==◌, is_some_and, is_some,
}
use glacialcast.Cursor.Format.{
  CursorError, CursorBitmap, CursorEvent, CursorBatch, malformed, too_large,
  max_cursor_plaintext_len, encoded_len, encoded_len_from, bitmap_refused, validate_position,
  validate_bitmap, validate_events, batch_refused, validate_cursor_batch, micropixels, in_span,
  is_nonzero,
}
use glacialcast.Cursor.Valid.{
  OptionIsValid, PositionIsValid, EventIsValid, NotBefore, Follows, bitmap_len, total_len,
  BatchIsValid,
}
use glacialcast.Cursor.ValidBitmap.{bitmap_refused-IsValid, IsValid-bitmap_refused}

position_iff :
    (max_x max_y : ℕ) (e : CursorEvent)
    → (validate_position max_x max_y e ≡ ok tt)
      ↔ PositionIsValid max_x max_y e.x_micropixels e.y_micropixels e.visible e.bitmap
unfolding validate_position
position_iff max_x max_y e = go e.visible e.x_micropixels e.y_micropixels e.bitmap
  where
    go :
        (v : Bool) (x y : ℤ) (o : Option CursorBitmap)
        → ((if v
              then fail_if (not (in_span max_x x) || not (in_span max_y y)) malformed
              else fail_if (is_nonzero x || is_nonzero y || is_some o) malformed)
            ≡ ok tt)
          ↔ PositionIsValid max_x max_y x y v o
    go true (pos m) (pos n) o =
        (λ h. ((m, refl, ground arith), (n, refl, ground arith)), λ h. ground arith)
    go true (pos m) (negsuc n) o = (λ h. absurd (ground arith), λ h. absurd (cc (h.1.1)))
    go true (negsuc m) y o = (λ h. absurd (ground arith), λ h. absurd (cc (h.0.1)))
    go false x y o = (λ h. ground arith, λ h. ground arith)

bitmap_iff :
    (id : ℕ) (o : Option CursorBitmap) → (validate_bitmap id o ≡ ok tt) ↔ OptionIsValid id o
unfolding validate_bitmap
bitmap_iff id none = (λ h. tt, λ h. refl)
bitmap_iff id (some b) = (
  λ h. bitmap_refused-IsValid id b (passed (bitmap_refused id b) h),
  λ v. ap (λ (t : Bool). fail_if t malformed) (IsValid-bitmap_refused id b v),
)
  where
    passed : (t : Bool) → fail_if t malformed ≡ ok tt → t ≡ false
    passed t h = ground arith

order_iff :
    (previous : Option ℕ) (t : ℕ)
    → (fail_if (is_some_and previous (ltb t)) malformed ≡ ok tt) ↔ NotBefore previous t
order_iff none t = (λ h. tt, λ h. refl)
order_iff (some p) t = (λ h. ground arith, λ h. ground arith)

events-Follows :
    (max_x max_y : ℕ) (previous : Option ℕ) (es : List CursorEvent)
    → validate_events max_x max_y previous es ≡ ok tt
    → Follows previous es × All (EventIsValid max_x max_y) es
unfolding validate_events
events-Follows max_x max_y previous [] h = (tt, tt)
events-Follows max_x max_y previous (e ∷ es) h =
    let (u, e1, h1) = >>=-eq-ok (fail_if (is_some_and previous (ltb e.timestamp)) malformed) _ h in
    let (v, e2, h2) = >>=-eq-ok (validate_position max_x max_y e) _ h1 in
    let (w, e3, h3) = >>=-eq-ok (validate_bitmap e.bitmap_id e.bitmap) _ h2 in
    let (later, valid) = events-Follows max_x max_y (some e.timestamp) es h3 in
    (
      ((order_iff previous e.timestamp).0 e1, later),
      (
        record {
          placed = (position_iff max_x max_y e).0 e2;
          image = (bitmap_iff e.bitmap_id e.bitmap).0 e3;
        },
        valid,
      ),
    )

Follows-events :
    (max_x max_y : ℕ) (previous : Option ℕ) (es : List CursorEvent)
    → Follows previous es
    → All (EventIsValid max_x max_y) es
    → validate_events max_x max_y previous es ≡ ok tt
unfolding validate_events
Follows-events max_x max_y previous [] f v = refl
Follows-events max_x max_y previous (e ∷ es) f v =
    rw
      (
        (order_iff previous e.timestamp).1 f.0,
        (position_iff max_x max_y e).1 v.0.placed,
        (bitmap_iff e.bitmap_id e.bitmap).1 v.0.image,
      )
      (Follows-events max_x max_y (some e.timestamp) es f.1 v.1)

-- Sums below the limit do not overflow.
encoded_len_step :
    (n : ℕ) (e : CursorEvent) (es : List CursorEvent)
    → n + 33 + bitmap_len e.bitmap ≤ max_cursor_plaintext_len
    → encoded_len_from n (e ∷ es) ≡ encoded_len_from (n + 33 + bitmap_len e.bitmap) es
unfolding encoded_len_from
encoded_len_step n e es h = ground arith

encoded_len_within :
    (n m : ℕ) (e : CursorEvent) (es : List CursorEvent)
    → encoded_len_from n (e ∷ es) ≡ ok m
    → n + 33 + bitmap_len e.bitmap ≤ max_cursor_plaintext_len
unfolding encoded_len_from
encoded_len_within n m e es h = ground arith

encoded_len_from_lem :
    (n : ℕ) (es : List CursorEvent)
    → n + total_len es ≤ max_cursor_plaintext_len
    → encoded_len_from n es ≡ ok (n + total_len es)
encoded_len_from_lem n [] h = unfold encoded_len_from in ap ok (omega arith)
encoded_len_from_lem n (e ∷ es) h =
    encoded_len_step n e es (omega arith)
    ∙ encoded_len_from_lem (n + 33 + bitmap_len e.bitmap) es (omega arith)
    ∙ ap ok (omega arith)

encoded_len_from_bounded :
    (n m : ℕ) (es : List CursorEvent)
    → n ≤ max_cursor_plaintext_len
    → encoded_len_from n es ≡ ok m
    → n + total_len es ≤ max_cursor_plaintext_len
encoded_len_from_bounded n m [] small h = omega arith
encoded_len_from_bounded n m (e ∷ es) small h =
    let room = encoded_len_within n m e es h in
    omega (
      arith,
      encoded_len_from_bounded (n + 33 + bitmap_len e.bitmap) m es room
          (sym (encoded_len_step n e es room) ∙ h),
    )

encoded_len_iff :
    (b : CursorBatch)
    → ((n : ℕ) × (encoded_len b ≡ ok n))
      ↔ ((length b.events < 2 ^ 16) × (14 + total_len b.events ≤ max_cursor_plaintext_len))
unfolding encoded_len
encoded_len_iff b = (
  λ h.
      let (count, counted, from) =
        >>=-eq-ok {E = CursorError} (try_from (2 ^ 16) (length b.events) too_large) _ h.1 in
      (
        fits (length b.events) count counted,
        encoded_len_from_bounded 14 h.0 b.events (omega arith) from,
      ),
  λ h. (
    14 + total_len b.events,
    rw (counts (length b.events) h.0) (encoded_len_from_lem 14 b.events h.1),
  ),
)
  where
    fits : (n m : ℕ) → try_from (2 ^ 16) n too_large ≡ ok m → n < 2 ^ 16
    fits n m h = ground arith

    counts : (n : ℕ) → n < 2 ^ 16 → try_from (2 ^ 16) n too_large ≡ ok n
    counts n h = ground arith

refused_iff :
    (b : CursorBatch)
    → (fail_if (batch_refused b) malformed ≡ ok tt) ↔ (
        (0 < b.source_width)
        × (b.source_width ≤ 65_535)
        × (0 < b.source_height)
        × (b.source_height ≤ 65_535)
        × (b.events ≢ []))
unfolding batch_refused
refused_iff b = go b.source_width b.source_height b.events
  where
    go :
        (w h : ℕ) (es : List CursorEvent)
        → (fail_if (w == 0 || h == 0 || ltb 65_535 w || ltb 65_535 h || is_empty es) malformed
            ≡ ok tt)
          ↔ ((0 < w) × (w ≤ 65_535) × (0 < h) × (h ≤ 65_535) × (es ≢ []))
    go w h [] = (λ r. absurd (ground arith), λ r. absurd (r.4 refl))
    go w h (e ∷ es) =
        (λ r. (ground arith, ground arith, ground arith, ground arith, λ q. cc), λ r. ground arith)

-- validate_cursor_batch passes a batch exactly when its source size, its events' order,
-- positions and bitmaps, their number and the total encoded size meet the description
-- BatchIsValid. The identifier of the bitmap of a hidden event is not constrained.
pub validate_cursor_batch_iff :
    (b : CursorBatch) → (validate_cursor_batch b ≡ ok tt) ↔ BatchIsValid b
unfolding validate_cursor_batch
validate_cursor_batch_iff b = (forth, back)
  where
    forth : validate_cursor_batch b ≡ ok tt → BatchIsValid b
    forth h =
        let (u, e1, h1) = >>=-eq-ok (fail_if (batch_refused b) malformed) _ h in
        let (v, e2, h2) =
          >>=-eq-ok
            (validate_events (micropixels b.source_width) (micropixels b.source_height) none
              b.events)
            _ h1 in
        let (n, e3, h3) = >>=-eq-ok (encoded_len b) _ h2 in
        let (w0, w1, h0, h1', ne) = (refused_iff b).0 e1 in
        let (ordered, each) = events-Follows _ _ none b.events e2 in
        let (count, bounded) = (encoded_len_iff b).0 (n, e3) in
        record {
          wide = (w0, w1);
          high = (h0, h1');
          some_event = ne;
          ordered = ordered;
          each = each;
          count = count;
          bounded = bounded;
        }

    back : BatchIsValid b → validate_cursor_batch b ≡ ok tt
    back v =
        let (n, measured) = (encoded_len_iff b).1 (v.count, v.bounded) in
        rw (
          (refused_iff b).1 (v.wide.0, v.wide.1, v.high.0, v.high.1, v.some_event),
          Follows-events _ _ none b.events v.ordered v.each,
          measured,
        )
