-- ===== src/Native/Sealing.antt =====
-- crates/protocol/src/native.rs: `NativeObject::open` after `GroupEncryptor::seal`.
use glacialcast.Prelude.{
  ℕ, ◌≡◌, refl, sym, ap, ◌∙◌, subst, subst₂, Bool, false, not, ◌&&◌, ◌||◌, some, Bytes, length,
  arith, ok, ◌==◌, same_bool, >>=-eq-ok, ok-injective, take-append-drop,
}
use glacialcast.Native.Types.{
  IdentityPublic, IdentitySecret, NativeObjectHeader, NewNativeObject, NativeObject, SignatureBytes,
}
use glacialcast.Native.External.{External, CryptoLaws}
use glacialcast.Native.Identity.{
  fingerprint, public_of, sign, verify, validate, signing_digest, signature_from_bytes,
  signature_to_bytes,
}
use glacialcast.Native.H264.{contains_h264_idr, validate_plaintext}
use glacialcast.Native.Header.{validate_header}
use glacialcast.Native.Object.{object_domain, is_media, validate_shape, verify_public, open_object}
use glacialcast.Native.Group.{GroupEncryptor, header_of, keyframe_refused, seal}
use glacialcast.Native.Inversions.{seal-Sealed, seal_under-Written}

pub signature_round_trip : (bytes : Bytes) → signature_to_bytes (signature_from_bytes bytes) ≡ bytes
unfolding signature_to_bytes signature_from_bytes
signature_round_trip bytes = take-append-drop 32 bytes

declared_flag :
    (g : GroupEncryptor) (o : NewNativeObject) (plaintext : Bytes)
    → keyframe_refused g o plaintext ≡ false
    → (is_media o.kind && not (same_bool o.random_access (contains_h264_idr plaintext))) ≡ false
declared_flag g o plaintext h = split (is_media o.kind) _ _ h
  where
    split : (m a b : Bool) → (m && (a || b)) ≡ false → (m && a) ≡ false
    split m a b h = ground arith

pub passes : {m n : ℕ} → m ≡ n → not (m == n) ≡ false
passes e = ground arith

module _ (ext : External) (laws : CryptoLaws ext) where
  signing_key_of :
      (s : IdentitySecret) (public : IdentityPublic)
      → public_of ext s ≡ ok public
      → public.signing_key ≡ ext.verifying_key_of s.signing_secret
  unfolding public_of
  signing_key_of s public h = ground arith

  pub sign-verify :
      (s : IdentitySecret) (public : IdentityPublic) (domain claim : Bytes)
      (signature : SignatureBytes)
      → public_of ext s ≡ ok public
      → validate ext public ≡ ok tt
      → sign ext s domain claim ≡ ok signature
      → verify ext public domain claim signature ≡ ok tt
  unfolding sign verify
  sign-verify s public domain claim signature derived valid signed =
      let (digest, e1, e2) = >>=-eq-ok (signing_digest ext domain claim) _ signed in
      let bytes : signature_to_bytes signature ≡ ext.ed25519_sign s.signing_secret digest =
        ap signature_to_bytes (sym (ok-injective e2)) ∙ signature_round_trip _ in
      rw (
        e1,
        valid,
        bytes,
        signing_key_of s public derived,
        laws.verify-sign s.signing_secret digest,
      )

  shape_passes :
      (o : NativeObject)
      → validate_header o.header ≡ ok tt
      → length o.ciphertext ≡ o.header.ciphertext_len
      → o.ciphertext_hash ≡ ext.sha256 o.ciphertext
      → validate_shape ext o ≡ ok tt
  unfolding validate_shape
  shape_passes o valid size hash = rw (valid, passes size, passes (sym hash))

  public_passes :
      (o : NativeObject) (public : IdentityPublic)
      → validate_shape ext o ≡ ok tt
      → fingerprint ext public ≡ ok o.header.publisher_id
      → verify ext public object_domain
          (ext.claim_bytes (record { header = o.header; ciphertext_hash = o.ciphertext_hash }))
          o.signature
        ≡ ok tt
      → verify_public ext o public ≡ ok tt
  unfolding verify_public
  public_passes o public shape id signature =
      rw (shape, id, passes {m = o.header.publisher_id} refl, signature)

  open_passes :
      (o : NativeObject) (public : IdentityPublic) (key key_id : ℕ) (plaintext : Bytes)
      → verify_public ext o public ≡ ok tt
      → o.header.key_id ≡ key_id
      → ext.decrypt key o.header.nonce (ext.header_bytes o.header) o.ciphertext ≡ some plaintext
      → validate_plaintext ext o.header.kind plaintext ≡ ok tt
      → (is_media o.header.kind
          && not (same_bool o.header.random_access (contains_h264_idr plaintext)))
        ≡ false
      → open_object ext o public key key_id ≡ ok plaintext
  unfolding open_object
  open_passes o public key key_id plaintext verified same decrypted valid flag =
      rw (verified, passes same, decrypted, valid, flag)

  pub valid_of_fingerprint :
      (public : IdentityPublic) (id : ℕ)
      → fingerprint ext public ≡ ok id
      → validate ext public ≡ ok tt
  unfolding fingerprint
  valid_of_fingerprint public id h = (>>=-eq-ok (validate ext public) _ h).1

  -- Under the laws of the cryptography, an object that seal produced is opened, with the
  -- group's key and key identifier and the sealing publisher's public identity, to the
  -- plaintext that was sealed.
  pub open-seal :
      (g : GroupEncryptor) (s : IdentitySecret) (o : NewNativeObject) (plaintext : Bytes)
      (sealed : NativeObject) (g' : GroupEncryptor) (public : IdentityPublic)
      → seal ext g s o plaintext ≡ ok (sealed, g')
      → public_of ext s ≡ ok public
      → open_object ext sealed public g.key g.key_id ≡ ok plaintext
  open-seal g s o plaintext sealed g' public e derived =
      let w = seal-Sealed ext g s o plaintext sealed g' e in
      let h = header_of g o w.size in
      let (valid, encrypted, signed, header, hash) =
        seal_under-Written ext g s h plaintext sealed w.under in
      let same : w.public ≡ public = ok-injective (sym w.derived ∙ derived) in
      let named : fingerprint ext public ≡ ok g.publisher_id =
        subst (λ p. fingerprint ext p ≡ ok g.publisher_id) same w.same_publisher in
      let flag = declared_flag g o plaintext w.declared in
      let back = sym header in
      open_passes sealed public g.key g.key_id plaintext
        (public_passes sealed public
          (shape_passes sealed (subst (λ q. validate_header q ≡ ok tt) back valid)
            (laws.length-encrypt g.key h.nonce (ext.header_bytes h) plaintext sealed.ciphertext
                encrypted
              ∙ sym w.measured
              ∙ ap (λ (q : NativeObjectHeader). q.ciphertext_len) back)
            hash)
          (subst (λ (q : NativeObjectHeader). fingerprint ext public ≡ ok q.publisher_id) back
            named)
          (sign-verify s public object_domain _ sealed.signature derived
            (valid_of_fingerprint public g.publisher_id named)
            (subst₂
              (λ q n.
                sign ext s object_domain
                  (ext.claim_bytes (record { header = q; ciphertext_hash = n }))
                ≡ ok sealed.signature)
              back (sym hash) signed)))
        (ap (λ (q : NativeObjectHeader). q.key_id) header)
        (subst
          (λ q. ext.decrypt g.key q.nonce (ext.header_bytes q) sealed.ciphertext ≡ some plaintext)
          back
          (laws.decrypt-encrypt g.key h.nonce (ext.header_bytes h) plaintext sealed.ciphertext
            encrypted))
        (subst (λ q. validate_plaintext ext q.kind plaintext ≡ ok tt) back w.valid_plaintext)
        (subst
          (λ q.
            (is_media q.kind && not (same_bool q.random_access (contains_h264_idr plaintext)))
            ≡ false)
          back flag)
