-- ===== src/Credential/Texts.antt =====
-- Serializers for credentials, to stand for Postcard in the tests.
use glacialcast.Prelude.{ℕ, zero, suc, ◌≡◌, refl, List, ℤ}
use glacialcast.Native.Types.{IdentityPublic, SignatureBytes}
use glacialcast.Native.Formats.{
  Format, number, numbers, both, converted, integer, identity_format, signature_format,
}
use glacialcast.Credential.Types.{
  CredentialRole, publisher, viewer, NativeCredentialBody, NativeCredential,
}

abbrev pub role_of : ℕ → CredentialRole
role_of zero = publisher
role_of (suc n) = viewer

abbrev pub role_code : CredentialRole → ℕ
role_code publisher = 0
role_code viewer = 1

pub role_of-role_code : (r : CredentialRole) → role_of (role_code r) ≡ r
role_of-role_code publisher = refl
role_of-role_code viewer = refl

abbrev pub role_format : Format CredentialRole
role_format = converted role_of role_code role_of-role_code number

abbrev pub BodyParts : Type 0
BodyParts = (ℕ × (ℕ × (ℕ × ℕ))) × (List ℕ × (CredentialRole × ((ℤ × ℤ) × (ℕ × IdentityPublic))))

abbrev pub body_of : BodyParts → NativeCredentialBody
body_of
      ((version, (issuer, (serial, request))), (subject, (role, ((from, until), (key, public))))) =
    record {
      version = version;
      issuer_id = issuer;
      serial = serial;
      request_id = request;
      subject = subject;
      role = role;
      not_before_ms = from;
      not_after_ms = until;
      noise_static_key = key;
      identity = public;
    }

abbrev pub body_parts : NativeCredentialBody → BodyParts
body_parts b = (
  (b.version, (b.issuer_id, (b.serial, b.request_id))),
  (b.subject, (b.role, ((b.not_before_ms, b.not_after_ms), (b.noise_static_key, b.identity)))),
)

abbrev pub body_format : Format NativeCredentialBody
body_format =
    converted body_of body_parts (λ b. refl)
      (both (both number (both number (both number number))) (
        both numbers
          (both role_format (both (both integer integer) (both number identity_format)))))

abbrev pub credential_format : Format NativeCredential
credential_format =
    converted
      (λ (p : NativeCredentialBody × SignatureBytes). record { body = p.0; signature = p.1 })
      (λ (c : NativeCredential). (c.body, c.signature)) (λ c. refl)
      (both body_format signature_format)

abbrev pub key_file_format : Format (ℕ × ℕ)
key_file_format = both number number
