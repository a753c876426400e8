-- ===== src/Native/Identity.antt =====
-- crates/protocol/src/identity.rs: identities, their fingerprints, and domain-separated signatures.
use glacialcast.Prelude.{
  ℕ, ◌^◌, not, ◌++◌, Bytes, length, take, drop, codes, to_be_bytes, Result, ok, ◌>>=◌, ◌>>◌,
  fail_if, ok_or, try_from, ◌==◌,
}
use glacialcast.Native.Types.{IdentityError, IdentityPublic, IdentitySecret, SignatureBytes}
use glacialcast.Native.Types.IdentityError.{unsupported_version, invalid_key, invalid_signature}
use glacialcast.Native.External.{External}

abbrev pub identity_version : ℕ
identity_version = 1

abbrev pub signature_prefix : Bytes
signature_prefix = codes "glacialcast-signature-v1"

abbrev pub identity_fingerprint_prefix : Bytes
identity_fingerprint_prefix = codes "glacialcast-identity-v1"

unfoldable pub signature_from_bytes : Bytes → SignatureBytes
signature_from_bytes bytes = record { first = take 32 bytes; second = drop 32 bytes }

unfoldable pub signature_to_bytes : SignatureBytes → Bytes
signature_to_bytes s = s.first ++ s.second

module _ (ext : External) where
  unfoldable pub validate : IdentityPublic → Result IdentityError (Unit {0})
  validate public = do
    fail_if (not (public.version == identity_version)) (unsupported_version public.version)
    fail_if (not (ext.is_verifying_key public.signing_key)) invalid_key
    fail_if (public.kem_key == 0) invalid_key
    fail_if (not (ext.is_kem_key public.kem_key)) invalid_key

  unfoldable pub fingerprint : IdentityPublic → Result IdentityError ℕ
  fingerprint public = do
    validate public
    ok (ext.sha256 (identity_fingerprint_prefix ++ ext.identity_bytes public))

  -- `IdentitySecret::public`; `PrivateKey::from_bytes` and `sk_to_pk` are `kem_key_of`.
  unfoldable pub public_of : IdentitySecret → Result IdentityError IdentityPublic
  public_of secret = do
    kem_key ← ok_or (ext.kem_key_of secret.kem_secret) invalid_key
    fail_if (kem_key == 0) invalid_key
    ok (record {
      version = identity_version;
      signing_key = ext.verifying_key_of secret.signing_secret;
      kem_key = kem_key;
    })

  -- The value is given by its canonical bytes; its length fits 64 bits.
  unfoldable pub signing_digest : Bytes → Bytes → Result IdentityError ℕ
  signing_digest domain encoded = do
    domain_len ← try_from (2 ^ 16) (length domain) invalid_key
    ok (
        ext.sha256 (
          signature_prefix
          ++ (to_be_bytes 2 domain_len ++ (domain ++ (to_be_bytes 8 (length encoded) ++ encoded)))))

  unfoldable pub sign : IdentitySecret → Bytes → Bytes → Result IdentityError SignatureBytes
  unfolding signature_from_bytes
  sign secret domain encoded = do
    digest ← signing_digest domain encoded
    ok (signature_from_bytes (ext.ed25519_sign secret.signing_secret digest))

  unfoldable pub verify :
      IdentityPublic → Bytes → Bytes → SignatureBytes → Result IdentityError (Unit {0})
  unfolding signature_to_bytes
  verify public domain encoded signature = do
    digest ← signing_digest domain encoded
    validate public
    fail_if (not (ext.ed25519_verify public.signing_key digest (signature_to_bytes signature)))
        invalid_signature
