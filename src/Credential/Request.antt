-- ===== src/Credential/Request.antt =====
-- crates/protocol/src/credential.rs: the `CredentialRequest` that a device submits to an authority.
use glacialcast.Prelude.{
  ℕ, not, ◌||◌, List, Bytes, ℤ, pos, Result, ok, err, ◌>>=◌, ◌>>◌, fail_if, ok_or, ◌==◌, leb_ℤ,
  ltb_ℤ, checked_sub_ℤ, saturating_add_ℤ, is_empty, same_bytes,
}
use glacialcast.Native.Types.{IdentityError, IdentityPublic, IdentitySecret}
use glacialcast.Native.External.{External}
use glacialcast.Native.Identity.{public_of, validate, sign, verify}
use glacialcast.Credential.Types.{
  CredentialRole, CredentialError, unsupported_version, invalid_metadata, not_yet_valid, expired,
  identity, CredentialRequestBody, CredentialRequest, credential_version, request_domain,
  clock_skew_ms,
}
use glacialcast.Credential.Types.CredentialError.{postcard}
use glacialcast.Credential.Postcard.{CredentialPostcard}
use glacialcast.Credential.Authority.{from_identity, validate_subject, validate_time_range}

-- The closure of `map_err` in `CredentialRequest::verify`.
abbrev pub signature_error : IdentityError → CredentialError
signature_error IdentityError.invalid_signature = CredentialError.invalid_signature
signature_error other = identity other

abbrev pub from_signature : Result IdentityError (Unit {0}) → Result CredentialError (Unit {0})
from_signature (ok u) = ok u
from_signature (err e) = err (signature_error e)

abbrev pub request_body :
    List ℕ → CredentialRole → ℕ → IdentityPublic → ℕ → ℤ → ℤ → CredentialRequestBody
request_body subject role noise_static_key public nonce issued_at_ms expires_at_ms = record {
  version = credential_version;
  subject = subject;
  role = role;
  noise_static_key = noise_static_key;
  identity = public;
  nonce = nonce;
  issued_at_ms = issued_at_ms;
  expires_at_ms = expires_at_ms;
}

module _ (ext : External) (post : CredentialPostcard) where
  abbrev pub encode_request : CredentialRequest → Result CredentialError Bytes
  encode_request request = ok (post.request_bytes request)

  unfoldable pub decode_request : Bytes → Result CredentialError CredentialRequest
  decode_request bytes = do
    (request, remainder) ← ok_or (post.take_request bytes) postcard
    fail_if (not (is_empty remainder) || not (same_bytes (post.request_bytes request) bytes))
        (invalid_metadata "trailing or non-canonical credential request")
    ok request

  -- `CredentialRequest::new`, with the nonce that was drawn.
  unfoldable pub new_request :
      IdentitySecret
      → List ℕ
      → CredentialRole
      → ℕ
      → ℕ
      → ℤ
      → ℤ
      → Result CredentialError CredentialRequest
  new_request secret subject role noise_static_key nonce issued_at_ms expires_at_ms = do
    validate_subject subject
    validate_time_range issued_at_ms expires_at_ms
    fail_if (noise_static_key == 0) (invalid_metadata "zero Noise static key")
    public ← from_identity (public_of ext secret)
    let body = request_body subject role noise_static_key public nonce issued_at_ms expires_at_ms
    signature ← from_identity (sign ext secret request_domain (post.request_body_bytes body))
    ok (record { body = body; signature = signature })

  unfoldable pub verify_request : CredentialRequest → ℤ → ℤ → Result CredentialError (Unit {0})
  verify_request request now_ms max_lifetime_ms = do
    fail_if (not (request.body.version == credential_version))
        (unsupported_version request.body.version)
    validate_subject request.body.subject
    from_identity (validate ext request.body.identity)
    fail_if (request.body.noise_static_key == 0 || request.body.nonce == 0)
        (invalid_metadata "zero Noise static key or request nonce")
    validate_time_range request.body.issued_at_ms request.body.expires_at_ms
    lifetime ←
        ok_or (checked_sub_ℤ request.body.expires_at_ms request.body.issued_at_ms)
          (invalid_metadata "request lifetime overflows")
    fail_if (leb_ℤ max_lifetime_ms (pos 0) || ltb_ℤ max_lifetime_ms lifetime)
        (invalid_metadata "request lifetime exceeds policy")
    fail_if (ltb_ℤ (saturating_add_ℤ now_ms clock_skew_ms) request.body.issued_at_ms) not_yet_valid
    fail_if (leb_ℤ request.body.expires_at_ms now_ms) expired
    from_signature (
        verify ext request.body.identity request_domain (post.request_body_bytes request.body)
          request.signature)

  -- `CredentialRequest::id`.
  abbrev pub request_id : CredentialRequest → ℕ
  request_id request = ext.sha256 (post.request_bytes request)
