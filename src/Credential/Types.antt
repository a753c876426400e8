-- ===== src/Credential/Types.antt =====
-- crates/protocol/src/credential.rs: the data of credentials. A fixed-size identifier, key, nonce or serial is
-- the number that its big-endian bytes stand for, and a subject is given by its code points.
use glacialcast.Prelude.{ℕ, ◌*◌, Bytes, List, codes, String, ℤ}
use glacialcast.Native.Types.{IdentityError, IdentityPublic, SignatureBytes}

abbrev pub credential_version : ℕ
credential_version = 1

abbrev pub max_credential_subject_len : ℕ
max_credential_subject_len = 128

abbrev pub max_revoked_serials : ℕ
max_revoked_serials = 16_384

abbrev pub request_domain : Bytes
request_domain = codes "glacialcast-credential-request-v1"

abbrev pub credential_domain : Bytes
credential_domain = codes "glacialcast-native-credential-v1"

abbrev pub revocation_domain : Bytes
revocation_domain = codes "glacialcast-native-crl-v1"

abbrev pub authority_id_domain : Bytes
authority_id_domain = codes "glacialcast-native-ca-v1"

abbrev pub authority_file_magic : Bytes
authority_file_magic = codes "GCCA1"

abbrev pub clock_skew_ms : ℕ
clock_skew_ms = 5 * 60 * 1_000

abbrev pub max_credential_lifetime_ms : ℕ
max_credential_lifetime_ms = 10 * 366 * 24 * 60 * 60 * 1_000

pub data CredentialRole : Type 0 where
  publisher viewer : CredentialRole

pub data CredentialError : Type 0 where
  unsupported_version : ℕ → CredentialError
  invalid_metadata : String → CredentialError
  invalid_signature wrong_issuer wrong_role not_yet_valid expired revoked : CredentialError
  wrong_noise_key : CredentialError
  identity : IdentityError → CredentialError
  postcard : CredentialError

pub record CertificateAuthorityPublic : Type 0 where
  pub version : ℕ
  pub signing_key : ℕ

pub record CertificateAuthoritySecret : Type 0 where
  pub signing_secret : ℕ

pub record CredentialRequestBody : Type 0 where
  pub version : ℕ
  pub subject : List ℕ
  pub role : CredentialRole
  pub noise_static_key : ℕ
  pub identity : IdentityPublic
  pub nonce : ℕ
  pub issued_at_ms : ℤ
  pub expires_at_ms : ℤ

pub record CredentialRequest : Type 0 where
  pub body : CredentialRequestBody
  pub signature : SignatureBytes

pub record NativeCredentialBody : Type 0 where
  pub version : ℕ
  pub issuer_id : ℕ
  pub serial : ℕ
  pub request_id : ℕ
  pub subject : List ℕ
  pub role : CredentialRole
  pub not_before_ms : ℤ
  pub not_after_ms : ℤ
  pub noise_static_key : ℕ
  pub identity : IdentityPublic

pub record NativeCredential : Type 0 where
  pub body : NativeCredentialBody
  pub signature : SignatureBytes

pub record RevocationListBody : Type 0 where
  pub version : ℕ
  pub issuer_id : ℕ
  pub generated_at_ms : ℤ
  pub expires_at_ms : ℤ
  pub serials : List ℕ

pub record RevocationList : Type 0 where
  pub body : RevocationListBody
  pub signature : SignatureBytes
