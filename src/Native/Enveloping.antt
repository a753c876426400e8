-- ===== src/Native/Enveloping.antt =====
-- crates/protocol/src/envelope.rs: `KeyEnvelope::open` after `KeyEnvelope::seal`.
use glacialcast.Prelude.{
  ℕ, ◌≡◌, refl, sym, ◌∙◌, subst, not, false, some, Bytes, length, arith, Result, ok, err, fail_if,
  ok_or, ◌==◌, >>=-eq-ok, ok-injective,
}
use glacialcast.Native.Types.{IdentityError, IdentityPublic, IdentitySecret}
use glacialcast.Native.EnvelopeTypes.{
  invalid_metadata, hpke, KeyEnvelope, content_key_len, hpke_ciphertext_len,
}
use glacialcast.Native.External.{External, CryptoLaws, HpkeLaws}
use glacialcast.Native.Identity.{fingerprint, public_of, sign, validate, verify}
use glacialcast.Native.Envelope.{
  envelope_domain, identity_in, validate_envelope_header, validate_envelope_shape, unsigned_of,
  new_header, hpke_context, kem_public_key, seal_envelope, verify_envelope, open_envelope,
}
use glacialcast.Native.Inversions.{not_refused, ok_or_inv}
use glacialcast.Native.Sealing.{passes, sign-verify, valid_of_fingerprint}

identity_in_inv :
    {A : Type 0} (m : Result IdentityError A) {a : A} → identity_in m ≡ ok a → m ≡ ok a
identity_in_inv (ok x) h = ground arith
identity_in_inv (err e) h = absurd (cc h)

module _ (ext : External) (crypto : CryptoLaws ext) (laws : HpkeLaws ext) where
  -- What a seal that succeeds has checked.
  record SealedTo (random : ℕ) (publisher : IdentitySecret) (recipient : IdentityPublic)
      (content_key : Bytes) (e : KeyEnvelope) : Type 0 where
    public : IdentityPublic
    derived : public_of ext publisher ≡ ok public
    valid_recipient : validate ext recipient ≡ ok tt
    publisher_named : fingerprint ext public ≡ ok e.header.publisher_id
    recipient_named : fingerprint ext recipient ≡ ok e.header.recipient_id
    valid_header : validate_envelope_header e.header ≡ ok tt
    sealed :
        ext.hpke_seal random recipient.kem_key
          (hpke_context ext e.header).0
          content_key
          (hpke_context ext e.header).1
        ≡ some (e.encapsulated_key, e.ciphertext)
    measured : not (length e.ciphertext == hpke_ciphertext_len) ≡ false
    signed :
        sign ext publisher envelope_domain (ext.unsigned_envelope_bytes (unsigned_of e))
        ≡ ok e.publisher_signature

  kem_key_inv :
      (public : IdentityPublic) {key : ℕ}
      → kem_public_key ext public ≡ ok key
      → public.kem_key ≡ key
  unfolding kem_public_key
  kem_key_inv public h =
      let (u, v, h1) = >>=-eq-ok (validate ext public) _ h in
      ok-injective
        (>>=-eq-ok (fail_if (not (ext.is_kem_key public.kem_key)) IdentityError.invalid_key) _ h1).2

  seal_envelope-SealedTo :
      (random : ℕ) (publisher : IdentitySecret) (recipient : IdentityPublic)
      (stream_id epoch_id key_group_id key_id : ℕ) (content_key : Bytes) (e : KeyEnvelope)
      → seal_envelope ext random publisher recipient stream_id epoch_id key_group_id key_id
          content_key
        ≡ ok e
      → SealedTo random publisher recipient content_key e
  unfolding seal_envelope
  seal_envelope-SealedTo random publisher recipient stream epoch group key_id content_key e h =
      let (public, e1, k1) = >>=-eq-ok (identity_in (public_of ext publisher)) _ h in
      let (u2, e2, k2) = >>=-eq-ok (identity_in (validate ext recipient)) _ k1 in
      let (p, e3, k3) = >>=-eq-ok (identity_in (fingerprint ext public)) _ k2 in
      let (r, e4, k4) = >>=-eq-ok (identity_in (fingerprint ext recipient)) _ k3 in
      let header = new_header p r stream epoch group key_id in
      let (u5, e5, k5) = >>=-eq-ok (validate_envelope_header header) _ k4 in
      let (key, e6, k6) = >>=-eq-ok (identity_in (kem_public_key ext recipient)) _ k5 in
      let ((encapsulated, ciphertext), e7, k7) =
        >>=-eq-ok
          (ok_or
            (ext.hpke_seal random key (hpke_context ext header).0 content_key
              (hpke_context ext header).1)
            hpke)
          _ k6 in
      let (u8, e8, k8) =
        >>=-eq-ok
          (fail_if (not (length ciphertext == hpke_ciphertext_len))
            (invalid_metadata "unexpected HPKE ciphertext length"))
          _ k7 in
      let (signature, e9, k9) =
        >>=-eq-ok
          (identity_in (
            sign ext publisher envelope_domain (
              ext.unsigned_envelope_bytes (record {
                header = header;
                encapsulated_key = encapsulated;
                ciphertext = ciphertext;
              }))))
          _ k8 in
      subst (SealedTo random publisher recipient content_key) (ok-injective k9) (record {
        public = public;
        derived = identity_in_inv _ e1;
        valid_recipient = identity_in_inv _ e2;
        publisher_named = identity_in_inv _ e3;
        recipient_named = identity_in_inv _ e4;
        valid_header = e5;
        sealed =
            subst
              (λ k.
                ext.hpke_seal random k (hpke_context ext header).0 content_key
                  (hpke_context ext header).1
                ≡ some (encapsulated, ciphertext))
              (sym (kem_key_inv recipient (identity_in_inv _ e6))) (ok_or_inv _ _ e7);
        measured = not_refused _ (invalid_metadata "unexpected HPKE ciphertext length") e8;
        signed = identity_in_inv _ e9;
      })

  verify_passes :
      (e : KeyEnvelope) (public : IdentityPublic)
      → validate_envelope_header e.header ≡ ok tt
      → not (length e.ciphertext == hpke_ciphertext_len) ≡ false
      → fingerprint ext public ≡ ok e.header.publisher_id
      → verify ext public envelope_domain
          (ext.unsigned_envelope_bytes (unsigned_of e))
          e.publisher_signature
        ≡ ok tt
      → verify_envelope ext e public ≡ ok tt
  unfolding verify_envelope validate_envelope_shape
  verify_passes e public valid measured named verified = rw (
    valid,
    measured,
    valid_of_fingerprint ext crypto public e.header.publisher_id named,
    named,
    passes {m = e.header.publisher_id} refl,
    verified,
  )

  open_passes :
      (e : KeyEnvelope) (secret : IdentitySecret) (mine public : IdentityPublic)
      (content_key : Bytes)
      → verify_envelope ext e public ≡ ok tt
      → public_of ext secret ≡ ok mine
      → fingerprint ext mine ≡ ok e.header.recipient_id
      → ext.hpke_open secret.kem_secret e.encapsulated_key
          (hpke_context ext e.header).0
          e.ciphertext
          (hpke_context ext e.header).1
        ≡ some content_key
      → length content_key ≡ content_key_len
      → open_envelope ext e secret public ≡ ok content_key
  unfolding open_envelope
  open_passes e secret mine public content_key verified derived named opened size =
      rw (verified, derived, named, passes {m = e.header.recipient_id} refl, opened, passes size)

  kem_key_of_public :
      (secret : IdentitySecret) (public : IdentityPublic)
      → public_of ext secret ≡ ok public
      → ext.kem_key_of secret.kem_secret ≡ some public.kem_key
  unfolding public_of
  kem_key_of_public secret public h = ground arith

  -- Under the laws of the cryptography, an envelope that seal_envelope made for a viewer's
  -- public identity with a content key of 32 bytes is opened by that viewer, with the sealing
  -- publisher's public identity, to the content key.
  pub open-seal_envelope :
      (random : ℕ) (publisher recipient : IdentitySecret) (public mine : IdentityPublic)
      (stream_id epoch_id key_group_id key_id : ℕ) (content_key : Bytes) (e : KeyEnvelope)
      → public_of ext publisher ≡ ok public
      → public_of ext recipient ≡ ok mine
      → length content_key ≡ content_key_len
      → seal_envelope ext random publisher mine stream_id epoch_id key_group_id key_id content_key
        ≡ ok e
      → open_envelope ext e recipient public ≡ ok content_key
  open-seal_envelope random publisher recipient public mine stream epoch group key_id content_key e
        of_publisher of_recipient size h =
      let w =
        seal_envelope-SealedTo random publisher mine stream epoch group key_id content_key e h in
      let same : w.public ≡ public = ok-injective (sym w.derived ∙ of_publisher) in
      let named : fingerprint ext public ≡ ok e.header.publisher_id =
        subst (λ p. fingerprint ext p ≡ ok e.header.publisher_id) same w.publisher_named in
      open_passes e recipient mine public content_key
        (verify_passes e public w.valid_header w.measured named (
          sign-verify ext crypto publisher public envelope_domain _ e.publisher_signature
            of_publisher (valid_of_fingerprint ext crypto public _ named) w.signed))
        of_recipient w.recipient_named
        (laws.open-seal random recipient.kem_secret mine.kem_key e.encapsulated_key _ content_key _
          e.ciphertext (kem_key_of_public recipient mine of_recipient) w.sealed)
        size
