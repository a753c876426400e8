-- ===== src/Native/Canonical.antt =====
-- crates/protocol/src/native.rs and envelope.rs: encoders against decoders, for descriptors, objects and
-- envelopes.
use glacialcast.Prelude.{
  ℕ, ◌≡◌, refl, sym, ◌∙◌, subst, false, not, [], ◌∷◌, ◌++◌, Bytes, length, append-nil, Option, some,
  arith, ◌↔◌, Result, ok, ◌>>=◌, ◌>>◌, fail_if, ok_or, ltb, same_bytes, same_bytes_sound,
  same_bytes_refl, is_empty, >>=-eq-ok, ok-injective,
}
use glacialcast.Native.Types.{
  IdentityError, IdentityPublic, NativeStreamError, payload_too_large, invalid_metadata,
  NativeObject, StreamDescriptor, max_native_object_len,
}
use glacialcast.Native.EnvelopeTypes.{EnvelopeError, KeyEnvelope, max_key_envelope_len, identity}
use glacialcast.Native.External.{External, PostcardLaws}
use glacialcast.Native.Object.{verify_public, encode_object, decode_object}
use glacialcast.Native.Descriptor.{
  max_descriptor_len, verify_descriptor, encode_descriptor, decode_descriptor,
}
use glacialcast.Native.Envelope.{verify_envelope, encode_envelope, decode_envelope}
use glacialcast.Native.Inversions.{not_refused}

pub same_of_not : (xs ys : Bytes) → not (same_bytes xs ys) ≡ false → xs ≡ ys
same_of_not xs ys h = same_bytes_sound xs ys (ground arith)

pub nothing_left : (xs : Bytes) → not (is_empty xs) ≡ false → xs ≡ []
nothing_left [] h = refl
nothing_left (x ∷ xs) h = absurd (cc h)

-- The shape that the three codecs share: a verified value whose bytes are within a limit.
module _ {E A : Type 0} (limit : ℕ) (too_large trailing malformed noncanonical : E)
    (bytes_of : A → Bytes) (parse : Bytes → Option (A × Bytes)) (verified : A → Result E (Unit {0}))
    (canonical : A → Result E Bytes) (parse-bytes_of : (a : A) → parse (bytes_of a) ≡ some (a, []))
    (canonical_lem : (a : A)
      → verified a ≡ ok tt
      → ltb limit (length (bytes_of a)) ≡ false
      → canonical a ≡ ok (bytes_of a))
    (canonical_inv : (a : A) (bytes : Bytes) → canonical a ≡ ok bytes → bytes_of a ≡ bytes) where
  abbrev encoder : A → Result E Bytes
  encoder a = do verified a; fail_if (ltb limit (length (bytes_of a))) too_large; ok (bytes_of a)

  abbrev decoder : Bytes → Result E A
  decoder bytes = do
    fail_if (ltb limit (length bytes)) too_large
    (a, remainder) ← ok_or (parse bytes) malformed
    fail_if (not (is_empty remainder)) trailing
    verified a
    encoded ← canonical a
    fail_if (not (same_bytes encoded bytes)) noncanonical
    ok a

  decoder_of_encoder : (a : A) (bytes : Bytes) → encoder a ≡ ok bytes → decoder bytes ≡ ok a
  decoder_of_encoder a bytes h =
      let (u, v, h1) = >>=-eq-ok (verified a) _ h in
      let (u2, s, h2) = >>=-eq-ok (fail_if (ltb limit (length (bytes_of a))) too_large) _ h1 in
      let small = not_refused _ too_large s in
      subst (λ b. decoder b ≡ ok a) (ok-injective h2)
        (rw (small, parse-bytes_of a, v, canonical_lem a v small, same_bytes_refl (bytes_of a)))

  encoder_of_decoder : (a : A) (bytes : Bytes) → decoder bytes ≡ ok a → encoder a ≡ ok bytes
  encoder_of_decoder a bytes h =
      let (u, s, h1) = >>=-eq-ok (fail_if (ltb limit (length bytes)) too_large) _ h in
      let ((x, rest), p, h2) = >>=-eq-ok (ok_or (parse bytes) malformed) _ h1 in
      let (u2, r, h3) = >>=-eq-ok (fail_if (not (is_empty rest)) trailing) _ h2 in
      let (u3, v, h4) = >>=-eq-ok (verified x) _ h3 in
      let (encoded, c, h5) = >>=-eq-ok (canonical x) _ h4 in
      let (u4, e, h6) = >>=-eq-ok (fail_if (not (same_bytes encoded bytes)) noncanonical) _ h5 in
      let written : bytes_of x ≡ bytes =
        canonical_inv x encoded c ∙ same_of_not encoded bytes (not_refused _ noncanonical e) in
      subst (λ y. encoder y ≡ ok bytes) (ok-injective h6)
        (rw (
          v,
          subst (λ b. ltb limit (length b) ≡ false) (sym written) (not_refused _ too_large s),
          written,
        ))

  codec_iff : (a : A) (bytes : Bytes) → (encoder a ≡ ok bytes) ↔ (decoder bytes ≡ ok a)
  codec_iff a bytes = (decoder_of_encoder a bytes, encoder_of_decoder a bytes)

pub parse_whole :
    {A : Type 0} (parse : Bytes → Option (A × Bytes)) (bytes : Bytes) (a : A)
    → ((rest : Bytes) → parse (bytes ++ rest) ≡ some (a, rest))
    → parse bytes ≡ some (a, [])
parse_whole parse bytes a law = subst (λ b. parse b ≡ some (a, [])) (append-nil bytes) (law [])

module _ (ext : External) (laws : PostcardLaws ext) where
  descriptor_bytes_lem :
      (d : StreamDescriptor)
      → verify_descriptor ext d ≡ ok tt
      → ltb max_descriptor_len (length (ext.descriptor_bytes d)) ≡ false
      → encode_descriptor ext d ≡ ok (ext.descriptor_bytes d)
  unfolding encode_descriptor
  descriptor_bytes_lem d v s = rw (v, s)

  descriptor_bytes_inv :
      (d : StreamDescriptor) (bytes : Bytes)
      → encode_descriptor ext d ≡ ok bytes
      → ext.descriptor_bytes d ≡ bytes
  unfolding encode_descriptor
  descriptor_bytes_inv d bytes h =
      let (u, v, h1) = >>=-eq-ok (verify_descriptor ext d) _ h in
      ok-injective
        (>>=-eq-ok
          (fail_if (ltb max_descriptor_len (length (ext.descriptor_bytes d))) payload_too_large) _
          h1).2

  -- Where Postcard reads back what it wrote, a stream descriptor encodes to bytes exactly when
  -- those bytes decode to it.
  pub encode_descriptor_iff :
      (d : StreamDescriptor) (bytes : Bytes)
      → (encode_descriptor ext d ≡ ok bytes) ↔ (decode_descriptor ext bytes ≡ ok d)
  unfolding encode_descriptor decode_descriptor
  encode_descriptor_iff d bytes =
      codec_iff max_descriptor_len payload_too_large (invalid_metadata "trailing descriptor data")
        NativeStreamError.postcard (invalid_metadata "noncanonical descriptor") ext.descriptor_bytes
        ext.take_descriptor (verify_descriptor ext) (encode_descriptor ext)
        (λ a. parse_whole ext.take_descriptor (ext.descriptor_bytes a) a (laws.take-descriptor a))
        descriptor_bytes_lem descriptor_bytes_inv d bytes

  -- Where Postcard reads back what it wrote, a native object encodes to bytes for a publisher
  -- exactly when those bytes decode to it for that publisher.
  pub encode_object_iff :
      (o : NativeObject) (publisher : IdentityPublic) (bytes : Bytes)
      → (encode_object ext o publisher ≡ ok bytes) ↔ (decode_object ext bytes publisher ≡ ok o)
  unfolding encode_object decode_object
  encode_object_iff o publisher bytes =
      codec_iff max_native_object_len payload_too_large
        (invalid_metadata "trailing native object data") NativeStreamError.postcard
        (invalid_metadata "noncanonical native object") ext.object_bytes ext.take_object
        (λ a. verify_public ext a publisher) (λ a. ok (ext.object_bytes a))
        (λ a. parse_whole ext.take_object (ext.object_bytes a) a (laws.take-object a))
        (λ a v s. refl) (λ a b e. ok-injective e) o bytes

  -- Where Postcard reads back what it wrote, a key envelope encodes to bytes for a publisher
  -- exactly when those bytes decode to it for that publisher.
  pub encode_envelope_iff :
      (e : KeyEnvelope) (publisher : IdentityPublic) (bytes : Bytes)
      → (encode_envelope ext e publisher ≡ ok bytes) ↔ (decode_envelope ext bytes publisher ≡ ok e)
  unfolding encode_envelope decode_envelope
  encode_envelope_iff e publisher bytes =
      codec_iff max_key_envelope_len (EnvelopeError.invalid_metadata "key envelope too large")
        (EnvelopeError.invalid_metadata "trailing key envelope data")
        (identity IdentityError.postcard)
        (EnvelopeError.invalid_metadata "noncanonical key envelope") ext.envelope_bytes
        ext.take_envelope (λ a. verify_envelope ext a publisher) (λ a. ok (ext.envelope_bytes a))
        (λ a. parse_whole ext.take_envelope (ext.envelope_bytes a) a (laws.take-envelope a))
        (λ a v s. refl) (λ a b e. ok-injective e) e bytes
