-- ===== src/Cursor/Spans.antt =====
-- crates/protocol/src/cursor.rs: what a method of `Reader` that succeeds has passed over. `Spans r xs r'`:
-- from `r` to `r'` lie the bytes `xs`.
use glacialcast.Prelude.{
  ℕ, ◌+◌, ◌-◌, ◌*◌, ◌^◌, ◌≤◌, ◌<◌, ◌≡◌, refl, sym, ap, ◌∙◌, subst, subst₂, [], ◌++◌, append_assoc,
  arith, Bytes, IsByte, All, All-take, All-drop, length, take, drop, length-drop, length-take,
  drop-drop, take-append-drop, to_be_bytes, from_be_bytes, to_be_bytes-from_be_bytes,
  from_be_bytes-lt, ℤ, to_word, InRange, to_word-from_word, from_word-InRange, Result, ok, err,
  fail_if, not, drop_all, ◌==◌,
}
use glacialcast.Cursor.Format.{CursorError, malformed}
use glacialcast.Cursor.Reader.{
  Reader, Read, ◌>>=◌, lift, pure, take_bytes, uint, int, at_end, remaining,
}
use glacialcast.Cursor.Moves.{ahead, bind_ok, bind_err, cancel}

-- Backwards: what a method that succeeds has passed over.
pub record Spans (r : Reader) (xs : Bytes) (r' : Reader) : Type 0 where
  pub whole : r'.bytes ≡ r.bytes
  pub within : r'.offset ≤ length r.bytes
  pub passed : ahead r ≡ xs ++ ahead r'

pub record IsSound (r : Reader) : Type 0 where
  pub inside : r.offset ≤ length r.bytes
  pub bytes : All IsByte r.bytes

pub Spans-IsSound : {r r' : Reader} {xs : Bytes} → Spans r xs r' → IsSound r → IsSound r'
Spans-IsSound {r} {r'} s h = record {
  inside = subst (λ bs. r'.offset ≤ length bs) (sym s.whole) s.within;
  bytes = subst (All IsByte) (sym s.whole) h.bytes;
}

pub Spans-trans :
    {r r' r'' : Reader} {xs ys : Bytes} → Spans r xs r' → Spans r' ys r'' → Spans r (xs ++ ys) r''
Spans-trans {r} {r'} {r''} {xs} {ys} s t = record {
  whole = t.whole ∙ s.whole;
  within = subst (λ bs. r''.offset ≤ length bs) s.whole t.within;
  passed = s.passed ∙ ap (◌++◌ xs) t.passed ∙ sym (append_assoc xs ys (ahead r''));
}

pub bind_inv :
    {A B : Type 0} (p : Read A) (f : A → Read B) (r : Reader) {b : B} {r'' : Reader}
    → (p >>= f) r ≡ ok (b, r'')
    → (a : A) × (r' : Reader) × (p r ≡ ok (a, r')) × (f a r' ≡ ok (b, r''))
bind_inv {A} {B} p f r {b} {r''} e = go (p r) refl
  where
    go :
        (m : Result CursorError (A × Reader))
        → p r ≡ m
        → (a : A) × (r' : Reader) × (p r ≡ ok (a, r')) × (f a r' ≡ ok (b, r''))
    go (ok (a, r')) h = (a, r', h, sym (bind_ok p f r h) ∙ e)
    go (err x) h = absurd (cc (e, bind_err p f r h))

pub lift_inv :
    {A : Type 0} (m : Result CursorError A) (r : Reader) {a : A} {r' : Reader}
    → lift m r ≡ ok (a, r')
    → (m ≡ ok a) × (r' ≡ r)
lift_inv (ok a) r e = ground arith
lift_inv (err x) r e = absurd (cc e)

take_bytes_ok :
    (n : ℕ) (r r' : Reader) (xs : Bytes)
    → take_bytes n r ≡ ok (xs, r')
    → (r.offset + n ≤ length r.bytes)
      × (xs ≡ take (r.offset + n - r.offset) (ahead r))
      × (r' ≡ record r { offset = r.offset + n })
unfolding take_bytes
take_bytes_ok n r r' xs e = ground arith

pub take_bytes_inv :
    (n : ℕ) (r r' : Reader) (xs : Bytes)
    → IsSound r
    → take_bytes n r ≡ ok (xs, r')
    → (length xs ≡ n) × All IsByte xs × Spans r xs r'
take_bytes_inv n r r' xs h e =
    let (room, found, moved) = take_bytes_ok n r r' xs e in
    let value : xs ≡ take n (ahead r) =
      found ∙ ap (λ (k : ℕ). take k (ahead r)) (cancel r.offset n) in
    (
      ap length value ∙ length-take n (ahead r) (omega (arith, length-drop r.offset r.bytes)),
      subst (All IsByte) (sym value) (All-take IsByte n _ (All-drop IsByte r.offset _ h.bytes)),
      record {
        whole = ap (λ (q : Reader). q.bytes) moved;
        within = subst (λ (q : Reader). q.offset ≤ length r.bytes) (sym moved) room;
        passed =
            rw (value, moved)
              (sym (
                ap (◌++◌ (take n (ahead r))) (sym (drop-drop r.offset n r.bytes))
                ∙ take-append-drop n (ahead r)));
      },
    )

pub pure_inv : {A : Type 0} {a b : A} {r r' : Reader} → pure a r ≡ ok (b, r') → (a ≡ b) × (r ≡ r')
pure_inv e = ground arith

be_of_bytes :
    (k : ℕ) (xs : Bytes)
    → length xs ≡ k
    → All IsByte xs
    → (from_be_bytes xs < 256 ^ k) × (xs ≡ to_be_bytes k (from_be_bytes xs))
be_of_bytes k xs size valid =
    subst (λ w. (from_be_bytes xs < 256 ^ w) × (xs ≡ to_be_bytes w (from_be_bytes xs))) size
      (from_be_bytes-lt xs valid, sym (to_be_bytes-from_be_bytes xs valid))

pub uint_inv :
    (k : ℕ) (r r' : Reader) (n : ℕ)
    → IsSound r
    → uint k r ≡ ok (n, r')
    → (n < 256 ^ k) × Spans r (to_be_bytes k n) r'
unfolding uint
uint_inv k r r' n h e =
    let (xs, r1, e1, e2) = bind_inv (take_bytes k) _ r e in
    let (size, valid, s) = take_bytes_inv k r r1 xs h e1 in
    let (value, moved) = pure_inv e2 in
    let (bound, shape) = be_of_bytes k xs size valid in
    (
      subst (λ m. m < 256 ^ k) value bound,
      subst₂ (Spans r) (shape ∙ ap (to_be_bytes k) value) moved s,
    )

pub int_inv :
    (k half : ℕ) (r r' : Reader) (z : ℤ)
    → 2 * half ≡ 256 ^ k
    → IsSound r
    → int k half r ≡ ok (z, r')
    → InRange half z × Spans r (to_be_bytes k (to_word half z)) r'
unfolding int
int_inv k half r r' z w h e =
    let (xs, r1, e1, e2) = bind_inv (take_bytes k) _ r e in
    let (size, valid, s) = take_bytes_inv k r r1 xs h e1 in
    let (value, moved) = pure_inv e2 in
    let (bound, shape) = be_of_bytes k xs size valid in
    let fits : from_be_bytes xs < 2 * half = subst (λ m. from_be_bytes xs < m) (sym w) bound in
    let back = to_word-from_word half (from_be_bytes xs) fits in
    (
      subst (InRange half) value (from_word-InRange half (from_be_bytes xs) fits),
      subst₂ (Spans r) (shape ∙ ap (to_be_bytes k) (sym back ∙ ap (to_word half) value)) moved s,
    )

-- Whenever `p` returns some `a`, it has passed over some `xs` with `Q a xs`.
abbrev pub Writes : {A : Type 0} → Read A → (A → Bytes → Type 0) → Type 0
Writes {A} p Q =
    (r r' : Reader) (a : A) → IsSound r → p r ≡ ok (a, r') → (xs : Bytes) × Spans r xs r' × Q a xs

Spans-refl : (r : Reader) → IsSound r → Spans r [] r
Spans-refl r h = record { whole = refl; within = h.inside; passed = refl }

module _ {A : Type 0} where
  pub Writes-bind :
      {B : Type 0} (p : Read A) (f : A → Read B) (Q : A → Bytes → Type 0) (S : B → Bytes → Type 0)
      → Writes p Q
      → ((a : A) (xs : Bytes) → Q a xs → Writes (f a) (λ b ys. S b (xs ++ ys)))
      → Writes (p >>= f) S
  Writes-bind p f Q S hp hf r r'' b h e =
      let (a, r', e1, e2) = bind_inv p f r e in
      let (xs, s, q) = hp r r' a h e1 in
      let (ys, t, z) = hf a xs q r' r'' b (Spans-IsSound s h) e2 in (xs ++ ys, Spans-trans s t, z)

  pub Writes-pure : (a : A) (S : A → Bytes → Type 0) → S a [] → Writes (pure a) S
  Writes-pure a S z r r' b h e =
      let (value, moved) = pure_inv e in
      ([], subst (Spans r []) moved (Spans-refl r h), subst (λ x. S x []) value z)

  pub Writes-lift :
      (m : Result CursorError A) (S : A → Bytes → Type 0)
      → ((a : A) → m ≡ ok a → S a [])
      → Writes (lift m) S
  Writes-lift m S z r r' b h e =
      let (value, moved) = lift_inv m r e in
      ([], subst (Spans r []) (sym moved) (Spans-refl r h), z b value)

pub uint-Writes : (k : ℕ) → Writes (uint k) (λ n xs. (n < 256 ^ k) × (xs ≡ to_be_bytes k n))
uint-Writes k r r' n h e =
    let (bound, s) = uint_inv k r r' n h e in (to_be_bytes k n, s, (bound, refl))

pub int-Writes :
    (k half : ℕ)
    → 2 * half ≡ 256 ^ k
    → Writes (int k half) (λ z xs. InRange half z × (xs ≡ to_be_bytes k (to_word half z)))
int-Writes k half w r r' z h e =
    let (bound, s) = int_inv k half r r' z w h e in
    (to_be_bytes k (to_word half z), s, (bound, refl))

pub take_bytes-Writes :
    (n : ℕ) → Writes (take_bytes n) (λ v xs. (xs ≡ v) × (length v ≡ n) × All IsByte v)
take_bytes-Writes n r r' v h e =
    let (size, valid, s) = take_bytes_inv n r r' v h e in (v, s, (refl, size, valid))

-- Whenever `p` returns some `a`, all that lay ahead is some `xs` with `S a xs`.
abbrev pub WritesAll : {A : Type 0} → Read A → (A → Bytes → Type 0) → Type 0
WritesAll {A} p S = (r r' : Reader) (a : A) → IsSound r → p r ≡ ok (a, r') → S a (ahead r)

module _ {A : Type 0} where
  pub WritesAll-bind :
      {B : Type 0} (p : Read A) (f : A → Read B) (Q : A → Bytes → Type 0) (S : B → Bytes → Type 0)
      → Writes p Q
      → ((a : A) (xs : Bytes) → Q a xs → WritesAll (f a) (λ b ys. S b (xs ++ ys)))
      → WritesAll (p >>= f) S
  WritesAll-bind p f Q S hp hf r r'' b h e =
      let (a, r', e1, e2) = bind_inv p f r e in
      let (xs, s, q) = hp r r' a h e1 in
      subst (S b) (sym s.passed) (hf a xs q r' r'' b (Spans-IsSound s h) e2)

  pub WritesAll-at_end :
      (a : A) (S : A → Bytes → Type 0)
      → S a []
      → WritesAll (at_end >>= λ ended. lift (fail_if (not ended) malformed) >>= λ u. pure a) S
  unfolding at_end
  WritesAll-at_end a S z r r'' b h e =
      let (found, value) = ended e in
      subst₂ S value (sym (drop_all r.bytes) ∙ ap (λ (n : ℕ). drop n r.bytes) (sym found)) z
    where
      ended :
          (lift (fail_if (not (r.offset == length r.bytes)) malformed) >>= λ u. pure a) r
            ≡ ok (b, r'')
          → (r.offset ≡ length r.bytes) × (a ≡ b)
      ended w = ground arith

pub remaining-Writes : Writes remaining (λ n xs. xs ≡ [])
unfolding remaining
remaining-Writes r r' n h e = ([], subst (Spans r []) (pure_inv e).1 (Spans-refl r h), refl)
