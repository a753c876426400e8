-- ===== src/Credential/Issued.antt =====
-- crates/protocol/src/credential.rs: the `NativeCredential` that an authority issues and a relay checks.
use glacialcast.Prelude.{
  ℕ, Bool, true, false, not, ◌||◌, Option, none, some, Bytes, ℤ, Result, ok, ◌>>=◌, ◌>>◌, fail_if,
  ok_or, ◌==◌, leb_ℤ, ltb_ℤ, is_empty, same_bytes,
}
use glacialcast.Native.External.{External}
use glacialcast.Native.Identity.{validate, signature_to_bytes}
use glacialcast.Credential.Types.{
  CredentialRole, publisher, viewer, CredentialError, unsupported_version, invalid_metadata,
  wrong_issuer, wrong_role, not_yet_valid, expired, revoked, wrong_noise_key,
  CertificateAuthorityPublic, CertificateAuthoritySecret, CredentialRequest, NativeCredentialBody,
  NativeCredential, RevocationList, credential_version, credential_domain,
}
use glacialcast.Credential.Types.CredentialError.{postcard}
use glacialcast.Credential.Postcard.{CredentialPostcard}
use glacialcast.Credential.Authority.{
  from_identity, validate_subject, validate_time_range, authority_id, authority_of, authority_sign,
}
use glacialcast.Credential.Request.{verify_request, request_id}
use glacialcast.Credential.Revocation.{binary_search, verify_authority, verify_revocations}

abbrev pub same_role : CredentialRole → CredentialRole → Bool
same_role publisher publisher = true
same_role publisher viewer = false
same_role viewer publisher = false
same_role viewer viewer = true

abbrev pub credential_body : ℕ → ℕ → ℕ → CredentialRequest → ℤ → ℤ → NativeCredentialBody
credential_body issuer_id serial id request now_ms not_after_ms = record {
  version = credential_version;
  issuer_id = issuer_id;
  serial = serial;
  request_id = id;
  subject = request.body.subject;
  role = request.body.role;
  not_before_ms = now_ms;
  not_after_ms = not_after_ms;
  noise_static_key = request.body.noise_static_key;
  identity = request.body.identity;
}

module _ (ext : External) (post : CredentialPostcard) where
  -- `CertificateAuthoritySecret::issue`, with the serial that was drawn.
  unfoldable pub issue :
      CertificateAuthoritySecret
      → CredentialRequest
      → ℕ
      → ℤ
      → ℤ
      → ℤ
      → Result CredentialError NativeCredential
  issue authority request serial now_ms not_after_ms max_request_lifetime_ms = do
    verify_request ext post request now_ms max_request_lifetime_ms
    validate_time_range now_ms not_after_ms
    issuer_id ← authority_id ext post (authority_of ext post authority)
    let body =
        credential_body issuer_id serial (request_id ext post request) request now_ms not_after_ms
    signature ←
        authority_sign ext post authority credential_domain (post.credential_body_bytes body)
    ok (record { body = body; signature = signature })

  abbrev pub encode_credential : NativeCredential → Result CredentialError Bytes
  encode_credential credential = ok (post.credential_bytes credential)

  unfoldable pub decode_credential : Bytes → Result CredentialError NativeCredential
  decode_credential bytes = do
    (credential, remainder) ← ok_or (post.take_credential bytes) postcard
    fail_if (not (is_empty remainder) || not (same_bytes (post.credential_bytes credential) bytes))
        (invalid_metadata "trailing or non-canonical credential data")
    ok credential

  -- The last step of `NativeCredential::verify_at`.
  unfoldable pub verify_unrevoked :
      NativeCredential
      → CertificateAuthorityPublic
      → Option RevocationList
      → ℤ
      → Result CredentialError (Unit {0})
  unfolding binary_search
  verify_unrevoked credential authority none now_ms = ok tt
  verify_unrevoked credential authority (some list) now_ms = do
    verify_revocations ext post list authority now_ms
    fail_if (binary_search credential.body.serial list.body.serials) revoked

  -- `NativeCredential::verify_at`.
  unfoldable pub verify_credential :
      NativeCredential
      → CertificateAuthorityPublic
      → Option RevocationList
      → CredentialRole
      → ℕ
      → ℤ
      → Result CredentialError (Unit {0})
  unfolding verify_unrevoked
  verify_credential credential authority revocations expected_role noise_static_key now_ms = do
    fail_if (not (credential.body.version == credential_version))
        (unsupported_version credential.body.version)
    validate_subject credential.body.subject
    validate_time_range credential.body.not_before_ms credential.body.not_after_ms
    from_identity (validate ext credential.body.identity)
    fail_if
        (credential.body.request_id == 0
          || credential.body.serial == 0
          || credential.body.noise_static_key == 0)
        (invalid_metadata "zero request, serial, or Noise identity")
    id ← authority_id ext post authority
    fail_if (not (credential.body.issuer_id == id)) wrong_issuer
    verify_authority ext post authority credential_domain
        (post.credential_body_bytes credential.body) (signature_to_bytes credential.signature)
    fail_if (not (same_role credential.body.role expected_role)) wrong_role
    fail_if (not (credential.body.noise_static_key == noise_static_key)) wrong_noise_key
    fail_if (ltb_ℤ now_ms credential.body.not_before_ms) not_yet_valid
    fail_if (leb_ℤ credential.body.not_after_ms now_ms) expired
    verify_unrevoked credential authority revocations now_ms
