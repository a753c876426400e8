-- ===== src/Pairing/Request.antt =====
-- crates/protocol/src/pairing.rs: the `PairRequest` of a viewer.
use glacialcast.Prelude.{
  ℕ, Bool, false, not, ◌||◌, Option, none, some, List, Bytes, ℤ, Result, ok, ◌>>=◌, ◌>>◌, fail_if,
  ◌==◌, leb_ℤ,
}
use glacialcast.Native.Types.{IdentityPublic, IdentitySecret}
use glacialcast.Native.External.{External}
use glacialcast.Native.Identity.{public_of, validate, sign}
use glacialcast.Credential.Types.{CredentialRole, NativeCredential}
use glacialcast.Credential.Issued.{same_role}
use glacialcast.Pairing.Types.{
  PairingError, unsupported_version, invalid_metadata, PairRequestBody, PairRequest,
  protocol_version, pairing_version, request_domain, request_id_domain,
}
use glacialcast.Pairing.Postcard.{PairingPostcard}
use glacialcast.Pairing.Checks.{
  from_identity, same_identity, validate_time, validate_device_label, domain_hash, verify_signed,
  encode_bounded, decode_bounded,
}

-- The credential that a request carries is one of its viewer.
abbrev pub foreign_credential : Option NativeCredential → IdentityPublic → Bool
foreign_credential none viewer = false
foreign_credential (some credential) viewer =
    not (same_role credential.body.role CredentialRole.viewer)
    || not (same_identity credential.body.identity viewer)

abbrev pub request_body :
    IdentityPublic
    → ℕ
    → IdentityPublic
    → Option NativeCredential
    → List ℕ
    → ℕ
    → ℤ
    → ℤ
    → PairRequestBody
request_body publisher stream_id viewer credential device_label nonce issued_at_ms expires_at_ms =
    record {
      version = pairing_version;
      protocol_version = protocol_version;
      publisher = publisher;
      stream_id = stream_id;
      viewer = viewer;
      viewer_credential = credential;
      device_label = device_label;
      nonce = nonce;
      issued_at_ms = issued_at_ms;
      expires_at_ms = expires_at_ms;
    }

module _ (ext : External) where
  unfoldable pub validate_request_metadata : PairRequestBody → Result PairingError (Unit {0})
  validate_request_metadata body = do
    fail_if
        (not (body.version == pairing_version) || not (body.protocol_version == protocol_version))
        unsupported_version
    from_identity (validate ext body.publisher)
    from_identity (validate ext body.viewer)
    fail_if (body.stream_id == 0) (invalid_metadata "nil requested stream")
    fail_if (foreign_credential body.viewer_credential body.viewer)
        (invalid_metadata "viewer credential does not match requesting identity")
    validate_device_label body.device_label
    fail_if (body.nonce == 0) (invalid_metadata "zero request nonce")
    fail_if (leb_ℤ body.expires_at_ms body.issued_at_ms)
        (invalid_metadata "invalid request time range")

  module _ (post : PairingPostcard) where
    -- `PairRequest::new_with_credential`, with the nonce that was drawn.
    unfoldable pub new_request :
        IdentitySecret
        → IdentityPublic
        → ℕ
        → List ℕ
        → Option NativeCredential
        → ℕ
        → ℤ
        → ℤ
        → Result PairingError PairRequest
    new_request viewer publisher stream_id device_label credential nonce issued_at_ms
          expires_at_ms =
        do
          validate_device_label device_label
          from_identity (validate ext publisher)
          public ← from_identity (public_of ext viewer)
          let body =
              request_body publisher stream_id public credential device_label nonce issued_at_ms
                expires_at_ms
          validate_request_metadata body
          signature ← from_identity (sign ext viewer request_domain (post.request_body_bytes body))
          ok (record { body = body; signature = signature })

    unfoldable pub verify_request : PairRequest → ℤ → ℤ → Result PairingError (Unit {0})
    unfolding verify_signed
    verify_request request now_ms max_lifetime_ms = do
      validate_request_metadata request.body
      validate_time request.body.issued_at_ms request.body.expires_at_ms now_ms max_lifetime_ms
      verify_signed ext request.body.viewer request_domain (post.request_body_bytes request.body)
          request.signature

    -- `PairRequest::id`.
    unfoldable pub request_id : PairRequest → ℕ
    unfolding domain_hash
    request_id request = domain_hash ext request_id_domain (post.request_bytes request)

    unfoldable pub encode_request : PairRequest → Result PairingError Bytes
    encode_request request = do
      validate_request_metadata request.body
      encode_bounded post.request_bytes post.take_request request

    unfoldable pub decode_request : Bytes → Result PairingError PairRequest
    decode_request bytes = do
      request ← decode_bounded post.request_bytes post.take_request bytes
      validate_request_metadata request.body
      ok request
