-- ===== src/Credential/Issuing.antt =====
-- crates/protocol/src/credential.rs: the checks that what an authority signs meets.
use glacialcast.Prelude.{
  ℕ, ◌≡◌, ◌≢◌, refl, sym, ap, ◌∙◌, subst, true, false, ◌||◌, Option, none, ℤ, Result, ok, err, ◌>>◌,
  fail_if, ◌==◌, ltb_ℤ, leb_ℤ, ◌<ℤ◌, ◌≤ℤ◌, ◌↔◌, arith, Bool,
}
use glacialcast.Native.External.{External, CryptoLaws}
use glacialcast.Native.Identity.{validate, signature_to_bytes}
use glacialcast.Native.Sealing.{passes}
use glacialcast.Credential.Types.{
  CredentialError, CredentialRole, not_yet_valid, expired, CertificateAuthorityPublic,
  CertificateAuthoritySecret, CredentialRequest, NativeCredentialBody, NativeCredential,
  RevocationList, credential_domain, credential_version,
}
use glacialcast.Credential.Postcard.{CredentialPostcard}
use glacialcast.Credential.Authority.{
  validate_subject, validate_time_range, authority_id, authority_of,
}
use glacialcast.Credential.Request.{request_id}
use glacialcast.Credential.Revocation.{verify_authority}
use glacialcast.Credential.Issued.{same_role, issue, verify_unrevoked, verify_credential}
use glacialcast.Credential.Issuance.{
  IssuedBy, authority_sign-verify, issue-IssuedBy, same_role_refl, within, within_iff,
}

module _ (ext : External) (post : CredentialPostcard) where
  -- The checks on a credential that do not look at the time.
  abbrev Sound : CertificateAuthorityPublic → NativeCredential → ℕ → Type 0
  Sound authority c id =
      (c.body.version ≡ credential_version)
      × (validate_subject c.body.subject ≡ ok tt)
      × (validate_time_range c.body.not_before_ms c.body.not_after_ms ≡ ok tt)
      × (validate ext c.body.identity ≡ ok tt)
      × ((c.body.request_id == 0 || c.body.serial == 0 || c.body.noise_static_key == 0) ≡ false)
      × (authority_id ext post authority ≡ ok id)
      × (c.body.issuer_id ≡ id)
      × (verify_authority ext post authority credential_domain (post.credential_body_bytes c.body)
            (signature_to_bytes c.signature)
          ≡ ok tt)

  pub regroup :
      (first second : Bool) (a b : CredentialError) (rest : Result CredentialError (Unit {0}))
      → (fail_if first a >> (fail_if second b >> rest))
        ≡ ((fail_if first a >> fail_if second b) >> rest)
  regroup true second a b rest = refl
  regroup false true a b rest = refl
  regroup false false a b rest = refl

  Sound-passes :
      (authority : CertificateAuthorityPublic) (c : NativeCredential) (id : ℕ)
      (revocations : Option RevocationList) (role : CredentialRole) (key : ℕ) (now_ms : ℤ)
      → Sound authority c id
      → same_role c.body.role role ≡ true
      → c.body.noise_static_key ≡ key
      → verify_credential ext post c authority revocations role key now_ms ≡ (
          within c.body.not_before_ms c.body.not_after_ms now_ms
          >> verify_unrevoked ext post c authority revocations now_ms)
  unfolding verify_credential
  Sound-passes authority c id revocations role key now_ms (v, s, t, i, z, k, n, g) r e =
      rw (passes v, s, t, i, z, k, passes n, g, r, passes e)
        (regroup (ltb_ℤ now_ms c.body.not_before_ms) (leb_ℤ c.body.not_after_ms now_ms)
          not_yet_valid expired (verify_unrevoked ext post c authority revocations now_ms))

  nonzero : (n : ℕ) → n ≢ 0 → (n == 0) ≡ false
  nonzero n h = ground arith

  module _ (laws : CryptoLaws ext) (a : CertificateAuthoritySecret) where
    issued-Sound :
        (r : CredentialRequest) (serial : ℕ) (from until : ℤ) (c : NativeCredential)
        (w : (IssuedBy ext post) a r serial from until c)
        → serial ≢ 0
        → request_id ext post r ≢ 0
        → Sound (authority_of ext post a) c w.issuer
    issued-Sound r serial from until c w drawn named =
        let back = sym w.filled in
        (
          ap (λ (b : NativeCredentialBody). b.version) w.filled,
          subst (λ (b : NativeCredentialBody). validate_subject b.subject ≡ ok tt) back
              w.requested.0,
          subst
              (λ (b : NativeCredentialBody).
                validate_time_range b.not_before_ms b.not_after_ms ≡ ok tt)
              back w.valid_range,
          subst (λ (b : NativeCredentialBody). validate ext b.identity ≡ ok tt) back w.requested.1,
          subst
              (λ (b : NativeCredentialBody).
                (b.request_id == 0 || b.serial == 0 || b.noise_static_key == 0) ≡ false)
              back
              (rw (nonzero (request_id ext post r) named, nonzero serial drawn, w.requested.2)),
          w.known,
          ap (λ (b : NativeCredentialBody). b.issuer_id) w.filled,
          authority_sign-verify ext post laws a credential_domain
              (post.credential_body_bytes c.body) c.signature w.known w.signed,
        )

    -- A credential that was issued passes all but the tests of time and revocation.
    pub issued_passes :
        (r : CredentialRequest) (serial : ℕ) (from until : ℤ) (c : NativeCredential)
        (revocations : Option RevocationList) (now_ms : ℤ)
        → IssuedBy ext post a r serial from until c
        → serial ≢ 0
        → request_id ext post r ≢ 0
        → verify_credential ext post c
            (authority_of ext post a)
            revocations
            r.body.role
            r.body.noise_static_key
            now_ms
          ≡ (within from until now_ms
              >> verify_unrevoked ext post c (authority_of ext post a) revocations now_ms)
    issued_passes r serial from until c revocations now_ms w drawn named =
        Sound-passes (authority_of ext post a) c w.issuer revocations r.body.role
          r.body.noise_static_key now_ms (issued-Sound r serial from until c w drawn named)
          (subst (λ (b : NativeCredentialBody). same_role b.role r.body.role ≡ true) (sym w.filled)
            (same_role_refl r.body.role))
          (ap (λ (b : NativeCredentialBody). b.noise_static_key) w.filled)
        ∙ ap
            (λ (b : NativeCredentialBody).
              within b.not_before_ms b.not_after_ms now_ms
              >> verify_unrevoked ext post c (authority_of ext post a) revocations now_ms)
            w.filled

    -- Under the laws of signatures, a credential that an authority issued with a nonzero serial
    -- and request identifier, checked without a revocation list for the role and key of its
    -- request, passes exactly from the time of issue until before its expiry.
    pub issue-verify_credential :
        (r : CredentialRequest) (serial : ℕ) (from until max_lifetime_ms : ℤ) (c : NativeCredential)
        (now_ms : ℤ)
        → issue ext post a r serial from until max_lifetime_ms ≡ ok c
        → serial ≢ 0
        → request_id ext post r ≢ 0
        → (verify_credential ext post c
              (authority_of ext post a)
              none
              r.body.role
              r.body.noise_static_key
              now_ms
            ≡ ok tt)
          ↔ (from ≤ℤ now_ms × now_ms <ℤ until)
    unfolding verify_unrevoked
    issue-verify_credential r serial from until max_lifetime_ms c now_ms h drawn named =
        subst (λ x. (x ≡ ok tt) ↔ (from ≤ℤ now_ms × now_ms <ℤ until))
          (sym (
            issued_passes r serial from until c none now_ms
              (issue-IssuedBy ext post a r serial from until max_lifetime_ms c h) drawn named
            ∙ last (within from until now_ms)))
          (within_iff from until now_ms)
      where
        last : (m : Result CredentialError (Unit {0})) → (m >> ok tt) ≡ m
        last (ok u) = refl
        last (err e) = refl
