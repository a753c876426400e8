-- ===== src/Credential/Authority.antt =====
-- crates/protocol/src/credential.rs: the checks on subjects and validity ranges, and certificate authorities.
use glacialcast.Prelude.{
  ℕ, not, ◌||◌, ◌++◌, List, Bytes, length, Option, none, some, ℤ, pos, Result, ok, err, ◌>>=◌, ◌>>◌,
  fail_if, ok_or, take, drop, ltb, ◌==◌, leb_ℤ, ltb_ℤ, checked_sub_ℤ, is_empty, same_bytes,
  if◌then◌else◌,
}
use glacialcast.Native.Types.{IdentityError, SignatureBytes}
use glacialcast.Native.External.{External}
use glacialcast.Native.Identity.{signing_digest, signature_from_bytes}
use glacialcast.Native.Descriptor.{utf8_len, trim, any_control}
use glacialcast.Credential.Types.{
  CredentialError, unsupported_version, invalid_metadata, identity, CertificateAuthorityPublic,
  CertificateAuthoritySecret, credential_version, max_credential_subject_len, authority_id_domain,
  authority_file_magic, max_credential_lifetime_ms,
}
use glacialcast.Credential.Types.CredentialError.{postcard}
use glacialcast.Credential.Postcard.{CredentialPostcard}

-- `?` on an identity error.
abbrev pub from_identity {ℓ} : {A : Type ℓ} → Result IdentityError A → Result CredentialError A
from_identity (ok a) = ok a
from_identity (err e) = err (identity e)

unfoldable pub validate_subject : List ℕ → Result CredentialError (Unit {0})
unfolding utf8_len trim any_control
validate_subject subject =
    fail_if
      (is_empty subject
        || ltb max_credential_subject_len (utf8_len subject)
        || not (same_bytes (trim subject) subject)
        || any_control subject)
      (invalid_metadata "invalid subject")

unfoldable pub validate_time_range : ℤ → ℤ → Result CredentialError (Unit {0})
validate_time_range not_before_ms not_after_ms = do
  lifetime ←
      ok_or (checked_sub_ℤ not_after_ms not_before_ms) (invalid_metadata "validity range overflows")
  fail_if (leb_ℤ lifetime (pos 0) || ltb_ℤ (pos max_credential_lifetime_ms) lifetime)
      (invalid_metadata "invalid validity range")

-- `slice::strip_prefix`.
abbrev pub strip_prefix : Bytes → Bytes → Option Bytes
strip_prefix prefix bytes =
    if same_bytes (take (length prefix) bytes) prefix
    then some (drop (length prefix) bytes)
    else none

module _ (ext : External) (post : CredentialPostcard) where
  unfoldable pub authority_id : CertificateAuthorityPublic → Result CredentialError ℕ
  authority_id authority = do
    fail_if (not (authority.version == credential_version)) (unsupported_version authority.version)
    fail_if (not (ext.is_verifying_key authority.signing_key))
        (invalid_metadata "invalid CA public key")
    ok (ext.sha256 (authority_id_domain ++ post.authority_bytes authority))

  unfoldable pub authority_key : CertificateAuthorityPublic → Result CredentialError ℕ
  authority_key authority = do
    authority_id authority
    fail_if (not (ext.is_verifying_key authority.signing_key))
        (invalid_metadata "invalid CA public key")
    ok authority.signing_key

  unfoldable pub encode_authority : CertificateAuthorityPublic → Result CredentialError Bytes
  encode_authority authority = do authority_id authority; ok (post.authority_bytes authority)

  unfoldable pub decode_authority : Bytes → Result CredentialError CertificateAuthorityPublic
  decode_authority bytes = do
    (authority, remainder) ← ok_or (post.take_authority bytes) postcard
    fail_if (not (is_empty remainder)) (invalid_metadata "trailing CA data")
    authority_id authority
    ok authority

  -- `CertificateAuthoritySecret::public`.
  abbrev pub authority_of : CertificateAuthoritySecret → CertificateAuthorityPublic
  authority_of authority = record {
    version = credential_version;
    signing_key = ext.verifying_key_of authority.signing_secret;
  }

  unfoldable pub authority_sign :
      CertificateAuthoritySecret → Bytes → Bytes → Result CredentialError SignatureBytes
  authority_sign authority domain encoded = do
    digest ← from_identity (signing_digest ext domain encoded)
    ok (signature_from_bytes (ext.ed25519_sign authority.signing_secret digest))

  -- The private `encode` and `decode` of the key file.
  unfoldable pub encode_key_file : CertificateAuthoritySecret → Result CredentialError Bytes
  encode_key_file authority =
      ok
        (authority_file_magic ++ post.key_file_bytes (credential_version, authority.signing_secret))

  unfoldable pub decode_key_file : Bytes → Result CredentialError CertificateAuthoritySecret
  decode_key_file bytes = do
    payload ←
        ok_or (strip_prefix authority_file_magic bytes) (invalid_metadata "invalid CA file magic")
    (version, signing_secret, remainder) ← ok_or (post.take_key_file payload) postcard
    fail_if (not (is_empty remainder)) (invalid_metadata "trailing CA key data")
    fail_if (not (version == credential_version)) (unsupported_version version)
    fail_if (signing_secret == 0) (invalid_metadata "zero CA private key")
    authority_id (authority_of (record { signing_secret = signing_secret }))
    ok (record { signing_secret = signing_secret })
