-- ===== src/Credential/Canonical.antt =====
-- crates/protocol/src/credential.rs: encoders against decoders.
use glacialcast.Prelude.{
  ℕ, ◌≡◌, subst, false, not, ◌||◌, [], Bytes, Option, some, ◌↔◌, Result, ok, ◌>>=◌, ◌>>◌, fail_if,
  ok_or, ◌==◌, same_bytes, same_bytes_refl, is_empty, >>=-eq-ok, ok-injective, arith, ◌≢◌, ap,
  append-nil,
}
use glacialcast.Native.External.{External}
use glacialcast.Native.Canonical.{same_of_not, parse_whole}
use glacialcast.Native.Inversions.{not_refused}
use glacialcast.Credential.Types.{
  CredentialError, invalid_metadata, CertificateAuthoritySecret, NativeCredential,
  credential_version,
}
use glacialcast.Credential.Types.CredentialError.{postcard}
use glacialcast.Credential.Postcard.{CredentialPostcard, CredentialPostcardLaws}
use glacialcast.Credential.Authority.{authority_id, authority_of, encode_key_file, decode_key_file}
use glacialcast.Credential.Issued.{encode_credential, decode_credential}
use glacialcast.Credential.Searching.{right_of}

-- The shape that the decoders share: bytes that are read whole and written back the same.
module _ {A : Type 0} (noncanonical : CredentialError) (bytes_of : A → Bytes)
    (parse : Bytes → Option (A × Bytes))
    (parse-bytes_of : (a : A) → parse (bytes_of a) ≡ some (a, [])) where
  abbrev decoder : Bytes → Result CredentialError A
  decoder bytes = do
    (a, remainder) ← ok_or (parse bytes) postcard
    fail_if (not (is_empty remainder) || not (same_bytes (bytes_of a) bytes)) noncanonical
    ok a

  decoder_iff :
      (a : A) (bytes : Bytes)
      → (◌≡◌ {A = Result CredentialError Bytes} (ok (bytes_of a)) (ok bytes))
        ↔ (decoder bytes ≡ ok a)
  decoder_iff a bytes = (
    λ h.
        subst (λ b. decoder b ≡ ok a) (ok-injective h)
          (rw (parse-bytes_of a, same_bytes_refl (bytes_of a))),
    λ h.
        let ((x, rest), p, h1) = >>=-eq-ok (ok_or (parse bytes) postcard) _ h in
        let (u, s, h2) =
          >>=-eq-ok
            (fail_if (not (is_empty rest) || not (same_bytes (bytes_of x) bytes)) noncanonical) _
            h1 in
        let same = same_of_not (bytes_of x) bytes (right_of _ _ (not_refused _ noncanonical s)) in
        subst (λ y. ◌≡◌ {A = Result CredentialError Bytes} (ok (bytes_of y)) (ok bytes))
          (ok-injective h2) (ap (λ b. ok b) same),
  )

module _ (ext : External) (post : CredentialPostcard) (laws : CredentialPostcardLaws post) where
  -- Where Postcard reads back what it wrote, a credential encodes to bytes exactly when those
  -- bytes decode to it.
  pub encode_credential_iff :
      (c : NativeCredential) (bytes : Bytes)
      → (encode_credential ext post c ≡ ok bytes) ↔ (decode_credential ext post bytes ≡ ok c)
  unfolding decode_credential
  encode_credential_iff c bytes =
      decoder_iff (invalid_metadata "trailing or non-canonical credential data")
        post.credential_bytes post.take_credential
        (λ a. parse_whole post.take_credential (post.credential_bytes a) a (laws.take-credential a))
        c bytes

  -- Where Postcard reads back what it wrote, the key file that an authority with a nonzero
  -- secret and a valid public key encodes to is decoded to that authority.
  pub decode-encode_key_file :
      (a : CertificateAuthoritySecret) (id : ℕ) (bytes : Bytes)
      → a.signing_secret ≢ 0
      → authority_id ext post (authority_of ext post a) ≡ ok id
      → encode_key_file ext post a ≡ ok bytes
      → decode_key_file ext post bytes ≡ ok a
  unfolding encode_key_file decode_key_file
  decode-encode_key_file a id bytes set known h =
      let payload = post.key_file_bytes (credential_version, a.signing_secret) in
      subst (λ b. decode_key_file ext post b ≡ ok a) (ok-injective h)
        (rw (
          subst (λ b. post.take_key_file b ≡ some (credential_version, a.signing_secret, []))
              (append-nil payload) (laws.take-key_file credential_version a.signing_secret []),
          differs a.signing_secret set,
          known,
        ))
    where
      differs : (n : ℕ) → n ≢ 0 → (n == 0) ≡ false
      differs n h = ground arith
