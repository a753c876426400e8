-- ===== src/Credential/Authorized.antt =====
-- crates/protocol/src/credential.rs: what `NativeCredential::verify_at` has checked when it passes.
use glacialcast.Prelude.{
  ℕ, ◌≡◌, refl, sym, ◌∙◌, subst, true, false, not, ◌||◌, Option, none, some, ℤ, ok, fail_if, ◌==◌,
  ltb, leb, ltb_ℤ, leb_ℤ, ◌<ℤ◌, ◌≤ℤ◌, LeWithin, length, >>=-eq-ok, ok-injective, arith, Bool,
}
use glacialcast.Native.External.{External}
use glacialcast.Native.Identity.{validate, signing_digest, signature_to_bytes}
use glacialcast.Native.Inversions.{not_refused}
use glacialcast.Credential.Types.{
  CredentialRole, publisher, viewer, CertificateAuthorityPublic, NativeCredential, RevocationList,
  max_credential_lifetime_ms, credential_domain, unsupported_version, invalid_metadata,
  wrong_issuer, wrong_role, wrong_noise_key, not_yet_valid, expired, revoked, invalid_signature,
  credential_version, max_revoked_serials,
}
use glacialcast.Credential.Postcard.{CredentialPostcard}
use glacialcast.Credential.Authority.{
  from_identity, validate_subject, validate_time_range, authority_id, authority_key,
}
use glacialcast.Credential.Revocation.{any_pair, verify_authority, verify_revocations}
use glacialcast.Credential.Issued.{same_role, verify_unrevoked, verify_credential}
use glacialcast.Credential.Searching.{Ascending, contains, binary_search-contains}
use glacialcast.Credential.Sorting.{any_pair-Ascending}
use glacialcast.Credential.Windows.{ltb_ℤ-false, leb_ℤ-false, validate_time_range_iff}
use glacialcast.Credential.Issuance.{from_identity_inv}

same_role_sound : (a b : CredentialRole) → not (same_role a b) ≡ false → a ≡ b
same_role_sound publisher publisher h = refl
same_role_sound publisher viewer h = absurd (cc h)
same_role_sound viewer publisher h = absurd (cc h)
same_role_sound viewer viewer h = refl

module _ (ext : External) (post : CredentialPostcard) where
  key_of_authority :
      (authority : CertificateAuthorityPublic) {key : ℕ}
      → authority_key ext post authority ≡ ok key
      → key ≡ authority.signing_key
  unfolding authority_key
  key_of_authority authority h =
      let (id, e1, k1) = >>=-eq-ok (authority_id ext post authority) _ h in
      let (u2, e2, k2) =
        >>=-eq-ok
          (fail_if (not (ext.is_verifying_key authority.signing_key))
            (invalid_metadata "invalid CA public key"))
          _ k1 in
      ok-injective (sym k2)

  -- The serial is on none of the lists that are given.
  abbrev pub Unrevoked : NativeCredential → Option RevocationList → Type 0
  Unrevoked c none = Unit
  Unrevoked c (some l) = contains c.body.serial l.body.serials ≡ false

  -- The key of the authority has signed the digest of the credential's body.
  abbrev pub SignedBy : CertificateAuthorityPublic → NativeCredential → Type 0
  SignedBy authority c =
      (digest : ℕ) × (signing_digest ext credential_domain (post.credential_body_bytes c.body)
        ≡ ok digest)
      × (ext.ed25519_verify authority.signing_key digest (signature_to_bytes c.signature) ≡ true)

  pub record Authorized (authority : CertificateAuthorityPublic)
      (revocations : Option RevocationList) (role : CredentialRole) (key : ℕ) (now_ms : ℤ)
      (c : NativeCredential) : Type 0 where
    pub issued_by : authority_id ext post authority ≡ ok c.body.issuer_id
    pub signed_by : SignedBy authority c
    pub has_role : c.body.role ≡ role
    pub has_key : c.body.noise_static_key ≡ key
    pub begun : c.body.not_before_ms ≤ℤ now_ms
    pub unexpired : now_ms <ℤ c.body.not_after_ms
    pub short_lived : LeWithin c.body.not_after_ms c.body.not_before_ms max_credential_lifetime_ms
    pub unrevoked : Unrevoked c revocations

  verify_authority-SignedBy :
      (authority : CertificateAuthorityPublic) (c : NativeCredential)
      → verify_authority ext post authority credential_domain
          (post.credential_body_bytes c.body)
          (signature_to_bytes c.signature)
        ≡ ok tt
      → SignedBy authority c
  unfolding verify_authority
  verify_authority-SignedBy authority c h =
      let bytes = signature_to_bytes c.signature in
      let (digest, e1, k1) =
        >>=-eq-ok
          (from_identity (signing_digest ext credential_domain (post.credential_body_bytes c.body)))
          _ h in
      let (key, e2, k2) = >>=-eq-ok (authority_key ext post authority) _ k1 in
      (
        digest,
        from_identity_inv (signing_digest ext credential_domain (post.credential_body_bytes c.body))
            e1,
        subst (λ (k : ℕ). ext.ed25519_verify k digest bytes ≡ true) (key_of_authority authority e2)
            (holds (ext.ed25519_verify key digest bytes) (not_refused _ invalid_signature k2)),
      )
    where
      holds : (b : Bool) → not b ≡ false → b ≡ true
      holds true h = refl
      holds false h = absurd (cc h)

  verify_revocations-Ascending :
      (l : RevocationList) (authority : CertificateAuthorityPublic) (now_ms : ℤ)
      → verify_revocations ext post l authority now_ms ≡ ok tt
      → Ascending l.body.serials
  unfolding verify_revocations
  verify_revocations-Ascending l authority now_ms h =
      let (u1, e1, k1) =
        >>=-eq-ok
          (fail_if (not (l.body.version == credential_version))
            (unsupported_version l.body.version))
          _ h in
      let (u2, e2, k2) =
        >>=-eq-ok (validate_time_range l.body.generated_at_ms l.body.expires_at_ms) _ k1 in
      let (u3, e3, k3) =
        >>=-eq-ok
          (fail_if (ltb max_revoked_serials (length l.body.serials))
            (invalid_metadata "too many revoked serials"))
          _ k2 in
      let (u4, e4, k4) =
        >>=-eq-ok
          (fail_if (any_pair (λ a b. leb b a) l.body.serials)
            (invalid_metadata "revoked serials are not sorted and unique"))
          _ k3 in
      any_pair-Ascending l.body.serials (not_refused _ _ e4)

  verify_unrevoked-Unrevoked :
      (c : NativeCredential) (authority : CertificateAuthorityPublic)
      (revocations : Option RevocationList) (now_ms : ℤ)
      → verify_unrevoked ext post c authority revocations now_ms ≡ ok tt
      → Unrevoked c revocations
  unfolding verify_unrevoked
  verify_unrevoked-Unrevoked c authority none now_ms h = tt
  verify_unrevoked-Unrevoked c authority (some l) now_ms h =
      let (u1, e1, k1) = >>=-eq-ok (verify_revocations ext post l authority now_ms) _ h in
      sym (
        binary_search-contains c.body.serial l.body.serials
          (verify_revocations-Ascending l authority now_ms e1))
      ∙ not_refused _ revoked k1

  -- A credential that verify_at passes names the authority, carries a signature of the
  -- authority's key, has the role and the key asked for, is inside its window, which is no
  -- longer than the maximum lifetime, and its serial is not on the revocation list that was
  -- given.
  pub verify_credential-Authorized :
      (authority : CertificateAuthorityPublic) (revocations : Option RevocationList)
      (role : CredentialRole) (key : ℕ) (now_ms : ℤ) (c : NativeCredential)
      → verify_credential ext post c authority revocations role key now_ms ≡ ok tt
      → Authorized authority revocations role key now_ms c
  unfolding verify_credential
  verify_credential-Authorized authority revocations role key now_ms c h =
      let (u1, e1, k1) =
        >>=-eq-ok
          (fail_if (not (c.body.version == credential_version))
            (unsupported_version c.body.version))
          _ h in
      let (u2, e2, k2) = >>=-eq-ok (validate_subject c.body.subject) _ k1 in
      let (u3, e3, k3) =
        >>=-eq-ok (validate_time_range c.body.not_before_ms c.body.not_after_ms) _ k2 in
      let (u4, e4, k4) = >>=-eq-ok (from_identity (validate ext c.body.identity)) _ k3 in
      let (u5, e5, k5) =
        >>=-eq-ok
          (fail_if (c.body.request_id == 0 || c.body.serial == 0 || c.body.noise_static_key == 0)
            (invalid_metadata "zero request, serial, or Noise identity"))
          _ k4 in
      let (id, e6, k6) = >>=-eq-ok (authority_id ext post authority) _ k5 in
      let (u7, e7, k7) = >>=-eq-ok (fail_if (not (c.body.issuer_id == id)) wrong_issuer) _ k6 in
      let (u8, e8, k8) =
        >>=-eq-ok
          (verify_authority ext post authority credential_domain (post.credential_body_bytes c.body)
            (signature_to_bytes c.signature))
          _ k7 in
      let (u9, e9, k9) = >>=-eq-ok (fail_if (not (same_role c.body.role role)) wrong_role) _ k8 in
      let (u10, e10, k10) =
        >>=-eq-ok (fail_if (not (c.body.noise_static_key == key)) wrong_noise_key) _ k9 in
      let (u11, e11, k11) =
        >>=-eq-ok (fail_if (ltb_ℤ now_ms c.body.not_before_ms) not_yet_valid) _ k10 in
      let (u12, e12, k12) = >>=-eq-ok (fail_if (leb_ℤ c.body.not_after_ms now_ms) expired) _ k11 in
      record {
        issued_by =
            subst (λ (n : ℕ). authority_id ext post authority ≡ ok n)
              (sym (same_number (not_refused _ wrong_issuer e7))) e6;
        signed_by = verify_authority-SignedBy authority c e8;
        has_role = same_role_sound c.body.role role (not_refused _ wrong_role e9);
        has_key = same_number (not_refused _ wrong_noise_key e10);
        begun = (ltb_ℤ-false c.body.not_before_ms now_ms).0 (not_refused _ not_yet_valid e11);
        unexpired = (leb_ℤ-false now_ms c.body.not_after_ms).0 (not_refused _ expired e12);
        short_lived = ((validate_time_range_iff c.body.not_before_ms c.body.not_after_ms).0 e3).1;
        unrevoked = verify_unrevoked-Unrevoked c authority revocations now_ms k12;
      }
    where
      same_number : {m n : ℕ} → not (m == n) ≡ false → m ≡ n
      same_number h = ground arith
