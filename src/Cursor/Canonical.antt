-- ===== src/Cursor/Canonical.antt =====
-- crates/protocol/src/cursor.rs: `encode_cursor_batch` after `decode_cursor_batch`.
use glacialcast.Prelude.{
  same_bytes, same_bytes_sound, ℕ, zero, suc, ◌*◌, ◌^◌, ◌<◌, ◌≡◌, refl, sym, ap, ◌∙◌, subst, Bool,
  true, false, not, none, List, [], ◌∷◌, ◌++◌, append-nil, arith, Bytes, IsByte, All, length,
  Result, ok, err, fail_if, >>=-eq-ok, ltb,
}
use glacialcast.Cursor.Format.{
  CursorError, CursorEvent, CursorBatch, CursorContext, malformed, magic, cursor_event_len,
  max_cursor_plaintext_len, too_large, encode_event, encode_events, encode_cursor_batch,
  encoded_len, batch_refused, validate_events, micropixels, validate_cursor_batch,
  validate_cursor_context,
}
use glacialcast.Cursor.Reader.{Reader, Read, new, ◌>>=◌, lift, pure, take_bytes, uint, remaining}
use glacialcast.Cursor.Decode.{
  read_event, read_events, read_batch, decode_body, decode_cursor_batch, result,
}
use glacialcast.Cursor.Spans.{
  pure_inv, bind_inv, IsSound, Writes, Writes-bind, Writes-pure, Writes-lift, uint-Writes,
  take_bytes-Writes, remaining-Writes, WritesAll, WritesAll-bind, WritesAll-at_end,
}
use glacialcast.Cursor.Shapes.{batch_image}
use glacialcast.Cursor.RoundTrip.{EventFits, BatchFits}
use glacialcast.Cursor.EventImages.{not_failed, read_event-Writes}

abbrev EventsWritten : ℕ → List CursorEvent → Bytes → Type 0
EventsWritten n es xs = (length es ≡ n) × (encode_events es ≡ ok xs) × All EventFits es

encode_events-nil : encode_events [] ≡ ok []
unfolding encode_events
encode_events-nil = refl

encode_events-cons :
    (e : CursorEvent) (es : List CursorEvent) (xs ys : Bytes)
    → encode_event e ≡ ok xs
    → encode_events es ≡ ok ys
    → encode_events (e ∷ es) ≡ ok (xs ++ ys)
unfolding encode_events
encode_events-cons e es xs ys h k = rw (h, k)

read_events-Writes : (n : ℕ) → Writes (read_events n) (EventsWritten n)
unfolding read_events
read_events-Writes zero = Writes-pure _ _ (refl, encode_events-nil, tt)
read_events-Writes (suc n) = Writes-bind read_event _ _ _ read_event-Writes λ e xs q.
    Writes-bind (read_events n) _ _ _ (read_events-Writes n) λ es ys z. Writes-pure _ _ (
      ap suc z.0,
      encode_events-cons e es xs (ys ++ []) q.0 (z.1 ∙ ap ok (sym (append-nil ys))),
      (q.1, z.2),
    )

record BatchWritten (b : CursorBatch) (bytes : Bytes) : Type 0 where
  events : Bytes
  shape : bytes ≡ batch_image b events
  encoded : encode_events b.events ≡ ok events
  count : length b.events < 2 ^ 16
  fits : BatchFits b

true_of_not : (t : Bool) → not t ≡ false → t ≡ true
true_of_not true h = refl
true_of_not false h = absurd (cc h)

read_batch-WritesAll : WritesAll read_batch BatchWritten
unfolding read_batch
read_batch-WritesAll =
    WritesAll-bind (take_bytes 4) _ _ BatchWritten (take_bytes-Writes 4) λ found x1 q1.
      WritesAll-bind (lift (fail_if (not (same_bytes found magic)) malformed)) _
        (λ u xs. (fail_if (not (same_bytes found magic)) malformed ≡ ok u) × (xs ≡ []))
        (λ b ys. BatchWritten b (x1 ++ ys)) (Writes-lift _ _ (λ u w. (w, refl)))
        λ u x2 q2.
          WritesAll-bind (uint 4) _ _ (λ b ys. BatchWritten b (x1 ++ (x2 ++ ys))) (uint-Writes 4)
            λ source_width x3 q3.
              WritesAll-bind (uint 4) _ _ (λ b ys. BatchWritten b (x1 ++ (x2 ++ (x3 ++ ys))))
                (uint-Writes 4)
                λ source_height x4 q4.
                  WritesAll-bind (uint 2) _ _
                    (λ b ys. BatchWritten b (x1 ++ (x2 ++ (x3 ++ (x4 ++ ys))))) (uint-Writes 2)
                    λ event_count x5 q5.
                      WritesAll-bind remaining _ _
                        (λ b ys. BatchWritten b (x1 ++ (x2 ++ (x3 ++ (x4 ++ (x5 ++ ys))))))
                        remaining-Writes
                        λ left x6 q6.
                          WritesAll-bind
                            (lift (fail_if (ltb left (event_count * cursor_event_len)) malformed)) _
                            (λ v xs. xs ≡ [])
                            (λ b ys.
                              BatchWritten b (x1 ++ (x2 ++ (x3 ++ (x4 ++ (x5 ++ (x6 ++ ys)))))))
                            (Writes-lift _ _ (λ v w. refl))
                            λ v x7 q7.
                              WritesAll-bind (read_events event_count) _ _
                                (λ b ys.
                                  BatchWritten b
                                    (x1 ++ (x2 ++ (x3 ++ (x4 ++ (x5 ++ (x6 ++ (x7 ++ ys))))))))
                                (read_events-Writes event_count)
                                λ events x8 q8.
                                  WritesAll-at_end
                                    (record {
                                      source_width = source_width;
                                      source_height = source_height;
                                      events = events;
                                    })
                                    (λ b ys. BatchWritten b (
                                      x1
                                      ++ (x2
                                          ++ (x3 ++ (x4 ++ (x5 ++ (x6 ++ (x7 ++ (x8 ++ ys)))))))))
                                    (record {
                                      events = x8;
                                      shape = cc (
                                        q1.0,
                                        q2.1,
                                        q3.1,
                                        q4.1,
                                        q5.1,
                                        q6,
                                        q7,
                                        q8.0,
                                        append-nil x8,
                                        same_bytes_sound found magic
                                            (true_of_not _ (not_failed _ _ _ q2.0)),
                                      );
                                      encoded = q8.1;
                                      count = subst (λ n. n < 2 ^ 16) (sym q8.0) q5.0;
                                      fits = record {
                                        source_width = q3.0;
                                        source_height = q4.0;
                                        events = q8.2;
                                      };
                                    })

-- What a decoder that succeeds has checked.
record Decoded (c : CursorContext) (bytes : Bytes) (b : CursorBatch) : Type 0 where
  written : BatchWritten b bytes
  valid : validate_cursor_batch b ≡ ok tt
  in_context : validate_cursor_context b c ≡ ok tt

guard_inv :
    {A : Type 0} (t : Bool) (x : CursorError) (p : Read A) (r r' : Reader) (a : A)
    → (lift (fail_if t x) >>= λ u. p) r ≡ ok (a, r')
    → p r ≡ ok (a, r')
guard_inv true x p r r' a e = absurd (cc e)
guard_inv false x p r r' a e = e

checks_inv :
    {A : Type 0} (m n : Result CursorError (Unit {0})) (r r' : Reader) (a b : A)
    → (lift m >>= λ u. lift n >>= λ v. pure a) r ≡ ok (b, r')
    → (m ≡ ok tt) × (n ≡ ok tt) × (a ≡ b)
checks_inv (ok u) (ok v) r r' a b e = (refl, refl, (pure_inv e).0)
checks_inv (ok u) (err x) r r' a b e = absurd (cc e)
checks_inv (err x) n r r' a b e = absurd (cc e)

result_inv :
    {A : Type 0} (m : Result CursorError (A × Reader)) {a : A}
    → result m ≡ ok a
    → (r : Reader) × (m ≡ ok (a, r))
result_inv (ok (a, r)) e = (r, ground arith)
result_inv (err x) e = absurd (cc e)

decode_cursor_batch-Decoded :
    (c : CursorContext) (bytes : Bytes) (b : CursorBatch)
    → All IsByte bytes
    → decode_cursor_batch c bytes ≡ ok b
    → Decoded c bytes b
unfolding decode_cursor_batch
decode_cursor_batch-Decoded c bytes b valid e =
    let start : IsSound (new bytes) = record { inside = omega arith; bytes = valid } in
    let (end, e1) = result_inv (decode_body c (length bytes) (new bytes)) e in
    let e2 =
      guard_inv (ltb max_cursor_plaintext_len (length bytes)) too_large _ (new bytes) end b e1 in
    let (read, r1, e3, e4) = bind_inv read_batch _ (new bytes) e2 in
    let (valid_batch, in_context, same) =
      checks_inv (validate_cursor_batch read) (validate_cursor_context read c) r1 end read b e4 in
    subst (Decoded c bytes) same (record {
      written = read_batch-WritesAll (new bytes) r1 read start e3;
      valid = valid_batch;
      in_context = in_context;
    })

measured_of_valid :
    (b : CursorBatch) → validate_cursor_batch b ≡ ok tt → (n : ℕ) × (encoded_len b ≡ ok n)
unfolding validate_cursor_batch
measured_of_valid b h =
    let (u, e1, h1) = >>=-eq-ok (fail_if (batch_refused b) malformed) _ h in
    let (v, e2, h2) =
      >>=-eq-ok
        (validate_events (micropixels b.source_width) (micropixels b.source_height) none b.events) _
        h1 in
    let (n, e3, h3) = >>=-eq-ok (encoded_len b) _ h2 in (n, e3)

encode_of_parts :
    (c : CursorContext) (b : CursorBatch) (events : Bytes) (n : ℕ)
    → validate_cursor_batch b ≡ ok tt
    → validate_cursor_context b c ≡ ok tt
    → encoded_len b ≡ ok n
    → length b.events < 2 ^ 16
    → encode_events b.events ≡ ok events
    → encode_cursor_batch c b ≡ ok (batch_image b events)
unfolding encode_cursor_batch
encode_of_parts c b events n valid in_context measured count encoded =
    let fits : ltb (length b.events) (2 ^ 16) ≡ true = ground arith in
    rw (valid, in_context, measured, fits, encoded)

-- Any bytes that decode_cursor_batch accepts are exactly what encode_cursor_batch writes for
-- the decoded batch in the same context, and the batch's fields fit their types.
pub encode-decode_cursor_batch :
    (c : CursorContext) (bytes : Bytes) (b : CursorBatch)
    → All IsByte bytes
    → decode_cursor_batch c bytes ≡ ok b
    → (encode_cursor_batch c b ≡ ok bytes) × BatchFits b
encode-decode_cursor_batch c bytes b valid e =
    let d = decode_cursor_batch-Decoded c bytes b valid e in
    let w = d.written in
    let (n, measured) = measured_of_valid b d.valid in
    (
      encode_of_parts c b w.events n d.valid d.in_context measured w.count w.encoded
          ∙ ap ok (sym w.shape),
      w.fits,
    )
