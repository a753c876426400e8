-- ===== src/Credential/Tests.antt =====
-- Concrete authorities, credentials and revocation lists, and the theorems about them at concrete inputs.
use glacialcast.Prelude.{
  ℕ, ◌≡◌, refl, none, some, Option, [], ◌∷◌, ◌++◌, Bytes, codes, pos, ok, err, ◌↔◌, ◌<ℤ◌, ◌≤ℤ◌,
  LeWithin, if◌then◌else◌, to_be_bytes, arith,
}
use glacialcast.Native.Identity.{
  public_of, sign, verify, validate, signing_digest, signature_from_bytes, signature_to_bytes,
}
use glacialcast.Native.Descriptor.{trim, trim_start, trim_end, utf8_len, any_control}
use glacialcast.Native.Tests.{toy, toy-laws, publisher, identity}
use glacialcast.Credential.Types.{
  viewer, revoked, CertificateAuthorityPublic, CertificateAuthoritySecret, CredentialRequest,
  NativeCredential, RevocationList, max_credential_lifetime_ms,
}
use glacialcast.Credential.Postcard.{CredentialPostcard, CredentialPostcardLaws}
use glacialcast.Credential.Authority.{
  validate_subject, validate_time_range, authority_id, authority_key, authority_sign, authority_of,
  decode_key_file, encode_key_file,
}
use glacialcast.Credential.Texts.{credential_format, key_file_format}
use glacialcast.Credential.Request.{new_request, verify_request}
use glacialcast.Credential.Revocation.{
  any_pair, insert_sorted, sort_unstable, sign_revocations, verify_authority,
}
use glacialcast.Credential.Issued.{
  issue, verify_unrevoked, verify_credential, encode_credential, decode_credential,
}
use glacialcast.Credential.Searching.{contains}
use glacialcast.Credential.Windows.{validate_time_range_iff}
use glacialcast.Credential.Issuing.{issue-verify_credential}
use glacialcast.Credential.Revoking.{sign_revocations-verify_credential}
use glacialcast.Credential.Authorized.{Authorized, verify_credential-Authorized}
use glacialcast.Credential.Canonical.{encode_credential_iff, decode-encode_key_file}

abbrev regrouped : Option ((ℕ × ℕ) × Bytes) → Option (ℕ × ℕ × Bytes)
regrouped none = none
regrouped (some ((a, b), rest)) = some (a, b, rest)

abbrev pub written : CredentialPostcard
written = record {
  authority_bytes = λ a. a.signing_key ∷ [];
  take_authority = λ bytes. none;
  key_file_bytes = key_file_format.write;
  take_key_file = λ bytes. regrouped (key_file_format.read bytes);
  request_body_bytes = λ b. [];
  request_bytes = λ r. [];
  take_request = λ bytes. none;
  credential_body_bytes = λ b. [];
  credential_bytes = credential_format.write;
  take_credential = credential_format.read;
  revocation_body_bytes = λ b. [];
  revocation_bytes = λ l. [];
  take_revocations = λ bytes. none;
}

written-laws : CredentialPostcardLaws written
written-laws = record {
  take-key_file = λ version secret rest. refl;
  take-credential = credential_format.read-write;
}

abbrev pub authority : CertificateAuthoritySecret
authority = record { signing_secret = 40 }

abbrev pub authority_public : CertificateAuthorityPublic
authority_public = authority_of toy written authority

abbrev pub device_request : CredentialRequest
device_request = record {
  body = record {
    version = 1;
    subject = codes "laptop";
    role = viewer;
    noise_static_key = 7;
    identity = identity;
    nonce = 8;
    issued_at_ms = pos 1_000;
    expires_at_ms = pos 2_000;
  };
  signature = record { first = to_be_bytes 32 0; second = to_be_bytes 32 74 };
}

new_request_example :
    new_request toy written publisher (codes "laptop") viewer 7 8 (pos 1_000) (pos 2_000)
    ≡ ok device_request
unfolding new_request public_of sign validate signing_digest signature_from_bytes validate_subject
    validate_time_range trim trim_start trim_end utf8_len any_control to_be_bytes
new_request_example = refl

abbrev pub credential : NativeCredential
credential = record {
  body = record {
    version = 1;
    issuer_id = 26;
    serial = 9;
    request_id = 1;
    subject = codes "laptop";
    role = viewer;
    not_before_ms = pos 1_500;
    not_after_ms = pos 9_000;
    noise_static_key = 7;
    identity = identity;
  };
  signature = record { first = to_be_bytes 32 0; second = to_be_bytes 32 108 };
}

abbrev revocations : RevocationList
revocations = record {
  body = record {
    version = 1;
    issuer_id = 26;
    generated_at_ms = pos 1_600;
    expires_at_ms = pos 5_000;
    serials = 9 ∷ 10 ∷ 12 ∷ [];
  };
  signature = record { first = to_be_bytes 32 0; second = to_be_bytes 32 101 };
}

issue_example :
    issue toy written authority device_request 9 (pos 1_500) (pos 9_000) (pos 1_000) ≡ ok credential
unfolding issue verify_request verify sign validate signing_digest signature_from_bytes
    signature_to_bytes validate_subject validate_time_range trim trim_start trim_end utf8_len
    any_control to_be_bytes authority_id authority_sign
issue_example = refl

sign_revocations_example :
    sign_revocations toy written authority (pos 1_600) (pos 5_000) (12 ∷ 9 ∷ 10 ∷ [])
    ≡ ok revocations
unfolding sign_revocations sort_unstable insert_sorted any_pair validate_time_range signing_digest
    signature_from_bytes to_be_bytes authority_id authority_sign
sign_revocations_example = refl

issue-verify_credential_example :
    (verify_credential toy written credential authority_public none viewer 7 (pos 8_999) ≡ ok tt)
    ↔ (pos 1_500 ≤ℤ pos 8_999 × pos 8_999 <ℤ pos 9_000)
issue-verify_credential_example =
    issue-verify_credential toy written toy-laws authority device_request 9 (pos 1_500) (pos 9_000)
      (pos 1_000) credential (pos 8_999) issue_example (omega arith) (omega arith)

sign_revocations-verify_credential_example :
    verify_credential toy written credential authority_public
      (some revocations)
      viewer
      7
      (pos 2_000)
    ≡ (if contains 9 (12 ∷ 9 ∷ 10 ∷ []) then err revoked else ok tt)
sign_revocations-verify_credential_example =
    sign_revocations-verify_credential toy written toy-laws authority device_request 9 (pos 1_500)
      (pos 9_000) (pos 1_000) credential (pos 1_600) (pos 5_000) (12 ∷ 9 ∷ 10 ∷ []) revocations
      (pos 2_000) issue_example sign_revocations_example (omega arith) (omega arith) (omega arith)
      (omega arith)

credential_passes :
    verify_credential toy written credential authority_public none viewer 7 (pos 2_000) ≡ ok tt
unfolding verify_credential verify_unrevoked verify_authority validate signing_digest
    signature_to_bytes validate_subject validate_time_range trim trim_start trim_end utf8_len
    any_control to_be_bytes authority_id authority_key
credential_passes = refl

verify_credential-Authorized_example :
    Authorized toy written authority_public none viewer 7 (pos 2_000) credential
verify_credential-Authorized_example =
    verify_credential-Authorized toy written authority_public none viewer 7 (pos 2_000) credential
      credential_passes

validate_time_range_iff_example :
    (validate_time_range (pos 1_500) (pos 9_000) ≡ ok tt)
    ↔ (pos 1_500 <ℤ pos 9_000 × LeWithin (pos 9_000) (pos 1_500) max_credential_lifetime_ms)
validate_time_range_iff_example = validate_time_range_iff (pos 1_500) (pos 9_000)

encode_credential_iff_example :
    (encode_credential toy written credential ≡ ok (credential_format.write credential))
    ↔ (decode_credential toy written (credential_format.write credential) ≡ ok credential)
encode_credential_iff_example =
    encode_credential_iff toy written written-laws credential (credential_format.write credential)

authority_known : authority_id toy written authority_public ≡ ok 26
unfolding authority_id
authority_known = refl

decode-encode_key_file_example :
    decode_key_file toy written (codes "GCCA1" ++ key_file_format.write (1, 40)) ≡ ok authority
decode-encode_key_file_example =
    decode-encode_key_file toy written written-laws authority 26
      (codes "GCCA1" ++ key_file_format.write (1, 40)) (omega arith) authority_known
      (unfold encode_key_file in refl)
