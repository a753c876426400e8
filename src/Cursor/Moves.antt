-- ===== src/Cursor/Moves.antt =====
-- crates/protocol/src/cursor.rs: how the methods of `Reader` move over the bytes. `Reads p xs a`: from
-- any position where `xs` lies ahead, `p` returns `a` and stops behind `xs`.
use glacialcast.Prelude.{
  ℕ, ◌+◌, ◌-◌, ◌*◌, ◌^◌, ◌≤◌, ◌<◌, ◌≡◌, refl, sym, ap, ◌∙◌, subst, Bool, true, [], ◌++◌,
  append_assoc, append-nil, arith, Bytes, length, take, drop, length-append, length-drop,
  take-length-append, drop-length-append, drop-drop, to_be_bytes, from_be_bytes,
  from_be_bytes-to_be_bytes, length-to_be_bytes, ℤ, to_word, from_word, InRange, from_word-to_word,
  to_word-lt, Result, ok, err, ◌==◌, u64_bound,
}
use glacialcast.Cursor.Format.{CursorError}
use glacialcast.Cursor.Reader.{
  Reader, Read, ◌>>=◌, lift, pure, take_bytes, uint, int, at_end, remaining,
}

-- What lies ahead of a reader.
abbrev pub ahead : Reader → Bytes
ahead r = drop r.offset r.bytes

pub record At (r : Reader) (rest : Bytes) : Type 0 where
  pub inside : r.offset ≤ length r.bytes
  pub small : length r.bytes < u64_bound
  pub next : ahead r ≡ rest

abbrev pub Reads : {A : Type 0} → Read A → Bytes → A → Type 0
Reads p xs a =
    (r : Reader) (rest : Bytes)
    → At r (xs ++ rest)
    → (r' : Reader) × (p r ≡ ok (a, r')) × (r'.bytes ≡ r.bytes) × At r' rest

pub bind_ok :
    {A B : Type 0} (p : Read A) (f : A → Read B) (r : Reader) {a : A} {r' : Reader}
    → p r ≡ ok (a, r')
    → (p >>= f) r ≡ f a r'
bind_ok p f r e = rw (e, ◌>>=◌)

pub bind_err :
    {A B : Type 0} (p : Read A) (f : A → Read B) (r : Reader) {x : CursorError}
    → p r ≡ err x
    → (p >>= f) r ≡ err x
bind_err p f r e = rw (e, ◌>>=◌)

pub Reads-bind :
    {A B : Type 0} (p : Read A) (f : A → Read B) (xs ys : Bytes) (a : A) (b : B)
    → Reads p xs a
    → Reads (f a) ys b
    → Reads (p >>= f) (xs ++ ys) b
Reads-bind p f xs ys a b hp hf r rest h =
    let (r1, e1, s1, h1) = hp r (ys ++ rest) (subst (At r) (append_assoc xs ys rest) h) in
    let (r2, e2, s2, h2) = hf r1 rest h1 in (r2, bind_ok p f r e1 ∙ e2, s2 ∙ s1, h2)

ahead_length :
    (r : Reader) (xs rest : Bytes)
    → At r (xs ++ rest)
    → r.offset + length xs + length rest ≡ length r.bytes
ahead_length r xs rest h =
    omega (arith, ap length h.next, length-drop r.offset r.bytes, length-append xs rest, h.inside)

advance_At :
    (r : Reader) (xs rest : Bytes)
    → At r (xs ++ rest)
    → At (record r { offset = r.offset + length xs }) rest
advance_At r xs rest h = record {
  inside = omega (arith, ahead_length r xs rest h);
  small = h.small;
  next =
      sym (drop-drop r.offset (length xs) r.bytes)
      ∙ ap (drop (length xs)) h.next
      ∙ drop-length-append xs rest;
}

pub cancel : (m n : ℕ) → m + n - m ≡ n
cancel m n = omega arith

slice_eq :
    (r : Reader) (xs rest : Bytes)
    → At r (xs ++ rest)
    → take (r.offset + length xs - r.offset) (drop r.offset r.bytes) ≡ xs
slice_eq r xs rest h =
    ap (λ (n : ℕ). take n (drop r.offset r.bytes)) (cancel r.offset (length xs))
    ∙ ap (take (length xs)) h.next
    ∙ take-length-append xs rest

pub take_bytes-Reads : (xs : Bytes) → Reads (take_bytes (length xs)) xs xs
unfolding take_bytes
take_bytes-Reads xs r rest h = (
  record r { offset = r.offset + length xs },
  ground (arith, slice_eq r xs rest h, ahead_length r xs rest h, h.small),
  refl,
  advance_At r xs rest h,
)

pub pure-Reads : {A : Type 0} (a : A) → Reads (pure a) [] a
pure-Reads a r rest h = (r, refl, refl, h)

pub lift-Reads : {A : Type 0} (m : Result CursorError A) (a : A) → m ≡ ok a → Reads (lift m) [] a
lift-Reads m a e r rest h = (r, rw (e, lift), refl, h)

pub Reads-map :
    {A B : Type 0} (p : Read A) (f : A → B) (xs : Bytes) (a : A)
    → Reads p xs a
    → Reads (p >>= λ v. pure (f v)) xs (f a)
Reads-map p f xs a hp r rest h =
    let (r1, e1, s1, h1) = hp r rest h in (r1, bind_ok p (λ v. pure (f v)) r e1, s1, h1)

take_be-Reads : (k n : ℕ) → Reads (take_bytes k) (to_be_bytes k n) (to_be_bytes k n)
take_be-Reads k n =
    subst (λ w. Reads (take_bytes w) (to_be_bytes k n) (to_be_bytes k n)) (length-to_be_bytes k n)
      (take_bytes-Reads (to_be_bytes k n))

pub uint-Reads : (k n : ℕ) → n < 256 ^ k → Reads (uint k) (to_be_bytes k n) n
unfolding uint
uint-Reads k n h =
    subst (Reads (uint k) (to_be_bytes k n)) (from_be_bytes-to_be_bytes k n h)
      (Reads-map (take_bytes k) from_be_bytes _ _ (take_be-Reads k n))

pub int-Reads :
    (k half : ℕ) (z : ℤ)
    → InRange half z
    → 2 * half ≡ 256 ^ k
    → Reads (int k half) (to_be_bytes k (to_word half z)) z
unfolding int
int-Reads k half z h e =
    subst (Reads (int k half) (to_be_bytes k (to_word half z)))
      (ap (from_word half)
          (from_be_bytes-to_be_bytes k _ (subst (λ m. to_word half z < m) e (to_word-lt half z h)))
        ∙ from_word-to_word half z h)
      (Reads-map (take_bytes k) (λ v. from_word half (from_be_bytes v)) _ _ (take_be-Reads k _))

-- `p` returns `a` where `xs` is all that lies ahead.
abbrev pub ReadsTo : {A : Type 0} → Read A → Bytes → A → Type 0
ReadsTo {A} p xs a = (r : Reader) → At r xs → (r' : Reader) × (p r ≡ ok (a, r'))

pub ReadsTo-bind :
    {A B : Type 0} (p : Read A) (f : A → Read B) (xs ys : Bytes) (a : A) (b : B)
    → Reads p xs a
    → ReadsTo (f a) ys b
    → ReadsTo (p >>= f) (xs ++ ys) b
ReadsTo-bind p f xs ys a b hp hf r h =
    let (r1, e1, s1, h1) = hp r ys h in let (r2, e2) = hf r1 h1 in (r2, bind_ok p f r e1 ∙ e2)

pub ReadsTo-pure : {A : Type 0} (a : A) (xs : Bytes) → ReadsTo (pure a) xs a
ReadsTo-pure a xs r h = (r, refl)

pub ReadsTo-remaining :
    {B : Type 0} (f : ℕ → Read B) (xs : Bytes) (b : B)
    → ReadsTo (f (length xs)) xs b
    → ReadsTo (remaining >>= f) xs b
unfolding remaining
ReadsTo-remaining f xs b hf r h =
    let (r2, e2) = hf r h in
    (r2, ap (λ (n : ℕ). f n r) (sym (length-drop r.offset r.bytes) ∙ ap length h.next) ∙ e2)

pub ReadsTo-at_end :
    {B : Type 0} (f : Bool → Read B) (b : B) → ReadsTo (f true) [] b → ReadsTo (at_end >>= f) [] b
unfolding at_end
ReadsTo-at_end f b hf r h =
    let (r2, e2) = hf r h in
    (
      r2,
      ap (λ (t : Bool). f t r)
            (ended r.offset (length r.bytes) h.inside
              (omega (arith, ap length h.next, length-drop r.offset r.bytes)))
          ∙ e2,
    )
  where
    ended : (m n : ℕ) → m ≤ n → n - m ≡ 0 → (m == n) ≡ true
    ended m n h1 h2 = ground arith

pub ReadsTo-last :
    {A B : Type 0} (p : Read A) (f : A → Read B) (xs : Bytes) (a : A) (b : B)
    → Reads p xs a
    → ReadsTo (f a) [] b
    → ReadsTo (p >>= f) xs b
ReadsTo-last p f xs a b hp hf =
    subst (λ ys. ReadsTo (p >>= f) ys b) (append-nil xs) (ReadsTo-bind p f xs [] a b hp hf)
