-- ===== src/Credential/Postcard.antt =====
-- What crates/protocol/src/credential.rs calls of the Postcard serializer, as functions that the model takes
-- as an argument, and what it relies on of them.
use glacialcast.Prelude.{ℕ, ◌≡◌, ◌++◌, Bytes, Option, some}
use glacialcast.Credential.Types.{
  CertificateAuthorityPublic, CredentialRequestBody, CredentialRequest, NativeCredentialBody,
  NativeCredential, RevocationListBody, RevocationList,
}

-- `to_stdvec` at each type, and `take_from_bytes` with what it leaves.
pub record CredentialPostcard : Type 0 where
  pub authority_bytes : CertificateAuthorityPublic → Bytes
  pub take_authority : Bytes → Option (CertificateAuthorityPublic × Bytes)
  -- A version and a private key.
  pub key_file_bytes : ℕ × ℕ → Bytes
  pub take_key_file : Bytes → Option (ℕ × ℕ × Bytes)
  pub request_body_bytes : CredentialRequestBody → Bytes
  pub request_bytes : CredentialRequest → Bytes
  pub take_request : Bytes → Option (CredentialRequest × Bytes)
  pub credential_body_bytes : NativeCredentialBody → Bytes
  pub credential_bytes : NativeCredential → Bytes
  pub take_credential : Bytes → Option (NativeCredential × Bytes)
  pub revocation_body_bytes : RevocationListBody → Bytes
  pub revocation_bytes : RevocationList → Bytes
  pub take_revocations : Bytes → Option (RevocationList × Bytes)

pub record CredentialPostcardLaws (post : CredentialPostcard) : Type 0 where
  pub take-key_file :
      (version secret : ℕ) (rest : Bytes)
      → post.take_key_file (post.key_file_bytes (version, secret) ++ rest)
        ≡ some (version, secret, rest)
  pub take-credential :
      (c : NativeCredential) (rest : Bytes)
      → post.take_credential (post.credential_bytes c ++ rest) ≡ some (c, rest)
