-- ===== src/Native/Nonces.antt =====
-- crates/protocol/src/native.rs: the nonces of the objects of one `GroupEncryptor`.
use glacialcast.Prelude.{
  ℕ, ◌^◌, ◌≤◌, ◌<◌, ◌≡◌, inl, inr, sym, ap, ◌∙◌, subst, List, [], ◌∷◌, ◌++◌, map, Bytes, length,
  All, All-imp, Distinct, Result-cases, subst₂, arith, to_be_bytes, from_be_bytes,
  from_be_bytes-to_be_bytes, drop, drop-length-append, Result, ok, err,
}
use glacialcast.Native.Types.{
  IdentitySecret, NativeStreamError, NewNativeObject, NativeObject, NativeObjectHeader,
}
use glacialcast.Native.External.{External}
use glacialcast.Native.Group.{GroupEncryptor, header_of, after_seal, seal, nonce_of}
use glacialcast.Native.Inversions.{seal-Sealed, seal_under-Written}

abbrev pub Request : Type 0
Request = NewNativeObject × Bytes

-- The objects of a sequence of calls of `seal`; a call that fails leaves the encryptor as it was.
abbrev pub sealed_first :
    Result NativeStreamError (NativeObject × GroupEncryptor) → List NativeObject
sealed_first (ok (o, g)) = o ∷ []
sealed_first (err e) = []

abbrev pub then_group :
    GroupEncryptor → Result NativeStreamError (NativeObject × GroupEncryptor) → GroupEncryptor
then_group g (ok (o, g')) = g'
then_group g (err e) = g

module _ (ext : External) where
  unfoldable pub seal_all : GroupEncryptor → IdentitySecret → List Request → List NativeObject
  seal_all g s [] = []
  seal_all g s ((o, plaintext) ∷ rest) =
      sealed_first (seal ext g s o plaintext)
      ++ seal_all (then_group g (seal ext g s o plaintext)) s rest

  -- What `seal` puts into the header that matters for nonces.
  seal-nonce :
      (g : GroupEncryptor) (s : IdentitySecret) (o : NewNativeObject) (plaintext : Bytes)
      (sealed : NativeObject) (g' : GroupEncryptor)
      → seal ext g s o plaintext ≡ ok (sealed, g')
      → (sealed.header.nonce ≡ nonce_of g.nonce_prefix o.sequence)
        × (sealed.header.sequence ≡ o.sequence)
        × (g.last_sequence < o.sequence)
        × (g' ≡ after_seal g o)
  seal-nonce g s o plaintext sealed g' e =
      let w = seal-Sealed ext g s o plaintext sealed g' e in
      let header = (seal_under-Written ext g s (header_of g o w.size) plaintext sealed w.under).3 in
      (
        ap (λ (h : NativeObjectHeader). h.nonce) header,
        ap (λ (h : NativeObjectHeader). h.sequence) header,
        w.newer,
        w.moved,
      )

-- An object under a prefix, later than a sequence.
record Above (prefix : Bytes) (n : ℕ) (o : NativeObject) : Type 0 where
  nonce : o.header.nonce ≡ nonce_of prefix o.header.sequence
  newer : n < o.header.sequence
  fits : o.header.sequence < 2 ^ 64

abbrev Fits : List Request → Type 0
Fits rs = All (λ (r : Request). r.0.sequence < 2 ^ 64) rs

nonce_of-injective :
    (prefix : Bytes) (m n : ℕ)
    → m < 2 ^ 64
    → n < 2 ^ 64
    → nonce_of prefix m ≡ nonce_of prefix n
    → m ≡ n
nonce_of-injective prefix m n hm hn e =
    sym (from_be_bytes-to_be_bytes 8 m hm)
    ∙ ap from_be_bytes (
        sym (drop-length-append prefix (to_be_bytes 8 m))
        ∙ ap (drop (length prefix)) e
        ∙ drop-length-append prefix (to_be_bytes 8 n))
    ∙ from_be_bytes-to_be_bytes 8 n hn

Above-weaken :
    (prefix : Bytes) (m n : ℕ) (o : NativeObject) → m ≤ n → Above prefix n o → Above prefix m o
Above-weaken prefix m n o h a = record { nonce = a.nonce; newer = omega arith; fits = a.fits }

abbrev nonce_in : NativeObject → Bytes
nonce_in o = o.header.nonce

Above-differs :
    (prefix : Bytes) (first later : NativeObject) (n : ℕ)
    → Above prefix n first
    → Above prefix first.header.sequence later
    → nonce_in first ≡ nonce_in later
    → ⊥
Above-differs prefix first later n a b e = omega (
  arith,
  nonce_of-injective prefix first.header.sequence later.header.sequence a.fits b.fits
      (sym a.nonce ∙ e ∙ b.nonce),
  b.newer,
)

map-differs :
    (prefix : Bytes) (first : NativeObject) (n : ℕ) (os : List NativeObject)
    → Above prefix n first
    → All (Above prefix first.header.sequence) os
    → All (λ y. nonce_in first ≡ y → ⊥) (map nonce_in os)
map-differs prefix first n [] a h = tt
map-differs prefix first n (o ∷ os) a h =
    (Above-differs prefix first o n a h.0, map-differs prefix first n os a h.1)

module _ (ext : External) where
  seal_all-Above :
      (g : GroupEncryptor) (s : IdentitySecret) (rs : List Request)
      → Fits rs
      → All (Above g.nonce_prefix g.last_sequence) (seal_all ext g s rs)
        × Distinct (map nonce_in (seal_all ext g s rs))
  unfolding seal_all
  seal_all-Above g s [] h = (tt, tt)
  seal_all-Above g s ((o, plaintext) ∷ rest) h = elim (Result-cases (seal ext g s o plaintext)) [
    | inr (x, e) ↦ rw e (seal_all-Above g s rest h.1)
    | inl ((sealed, g'), e) ↦ rw e (step sealed g' e (seal_all-Above g' s rest h.1))
  ]
    where
      step :
          (sealed : NativeObject) (g' : GroupEncryptor)
          → seal ext g s o plaintext ≡ ok (sealed, g')
          → All (Above g'.nonce_prefix g'.last_sequence) (seal_all ext g' s rest)
            × Distinct (map nonce_in (seal_all ext g' s rest))
          → All (Above g.nonce_prefix g.last_sequence) (sealed ∷ seal_all ext g' s rest)
            × Distinct (map nonce_in (sealed ∷ seal_all ext g' s rest))
      step sealed g' e (later, distinct) =
          let (nonce, sequence, newer, moved) = seal-nonce ext g s o plaintext sealed g' e in
          let first : Above g.nonce_prefix g.last_sequence sealed = record {
            nonce = nonce ∙ ap (nonce_of g.nonce_prefix) (sym sequence);
            newer = omega (arith, sequence);
            fits = subst (λ n. n < 2 ^ 64) (sym sequence) h.0;
          } in
          let above : All (Above g.nonce_prefix sealed.header.sequence) (seal_all ext g' s rest) =
            subst₂ (λ p n. All (Above p n) (seal_all ext g' s rest))
              (ap (λ (q : GroupEncryptor). q.nonce_prefix) moved)
              (ap (λ (q : GroupEncryptor). q.last_sequence) moved ∙ sym sequence) later in
          (
            (
              first,
              All-imp _ _ (seal_all ext g' s rest)
                  (λ q.
                    Above-weaken g.nonce_prefix g.last_sequence sealed.header.sequence q
                      (omega (arith, sequence)))
                  above,
            ),
            (map-differs g.nonce_prefix sealed g.last_sequence _ first above, distinct),
          )

  -- Over any sequence of seal calls with 64-bit sequences on one GroupEncryptor, failed calls
  -- included, the nonces of the sealed objects are pairwise different.
  pub seal_all-Distinct :
      (g : GroupEncryptor) (s : IdentitySecret) (rs : List Request)
      → All (λ (r : Request). r.0.sequence < 2 ^ 64) rs
      → Distinct (map (λ (o : NativeObject). o.header.nonce) (seal_all ext g s rs))
  seal_all-Distinct g s rs h = (seal_all-Above g s rs h).1
