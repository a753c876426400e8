-- ===== src/Credential/Issuance.antt =====
-- crates/protocol/src/credential.rs: what an authority has signed into a credential.
use glacialcast.Prelude.{
  ℕ, ◌≡◌, refl, sym, ap, ◌∙◌, subst, true, false, not, ◌||◌, Bytes, ℤ, Result, ok, err, ◌>>◌,
  fail_if, ◌==◌, ltb_ℤ, leb_ℤ, ◌<ℤ◌, ◌≤ℤ◌, ◌↔◌, >>=-eq-ok, ok-injective, arith, or_false, Bool,
}
use glacialcast.Native.Types.{IdentityError, SignatureBytes}
use glacialcast.Native.External.{External, CryptoLaws}
use glacialcast.Native.Identity.{validate, signing_digest, signature_to_bytes}
use glacialcast.Native.Inversions.{not_refused}
use glacialcast.Native.Sealing.{signature_round_trip}
use glacialcast.Credential.Types.{
  CredentialError, CredentialRole, publisher, viewer, not_yet_valid, expired, unsupported_version,
  invalid_metadata, CertificateAuthoritySecret, CredentialRequest, NativeCredential,
  credential_domain, credential_version,
}
use glacialcast.Credential.Postcard.{CredentialPostcard}
use glacialcast.Credential.Authority.{
  from_identity, validate_subject, validate_time_range, authority_id, authority_key, authority_of,
  authority_sign,
}
use glacialcast.Credential.Request.{verify_request, request_id}
use glacialcast.Credential.Revocation.{verify_authority}
use glacialcast.Credential.Issued.{same_role, credential_body, issue}
use glacialcast.Credential.Windows.{ltb_ℤ-false, leb_ℤ-false}

pub from_identity_inv :
    {A : Type 0} (m : Result IdentityError A) {a : A} → from_identity m ≡ ok a → m ≡ ok a
from_identity_inv (ok x) h = ground arith
from_identity_inv (err e) h = absurd (cc h)

pub same_role_refl : (r : CredentialRole) → same_role r r ≡ true
same_role_refl publisher = refl
same_role_refl viewer = refl

-- The two last tests of both `verify_at`.
abbrev pub within : ℤ → ℤ → ℤ → Result CredentialError (Unit {0})
within from until now_ms = do
  fail_if (ltb_ℤ now_ms from) not_yet_valid
  fail_if (leb_ℤ until now_ms) expired

pub within_iff :
    (from until now_ms : ℤ)
    → (within from until now_ms ≡ ok tt) ↔ (from ≤ℤ now_ms × now_ms <ℤ until)
within_iff from until now_ms =
    decide (ltb_ℤ now_ms from) (leb_ℤ until now_ms) (ltb_ℤ-false from now_ms)
      (leb_ℤ-false now_ms until)
  where
    decide :
        {P Q : Type 0} (early late : Bool)
        → (early ≡ false) ↔ P
        → (late ≡ false) ↔ Q
        → ((fail_if early not_yet_valid >> fail_if late expired) ≡ ok tt) ↔ (P × Q)
    decide true late p q = (λ h. absurd (cc h), λ h. absurd (cc (p.1 h.0)))
    decide false true p q = (λ h. absurd (cc h), λ h. absurd (cc (q.1 h.1)))
    decide false false p q = (λ h. (p.0 refl, q.0 refl), λ h. refl)

module _ (ext : External) (post : CredentialPostcard) where
  pub key_inv :
      (a : CertificateAuthoritySecret) {id : ℕ}
      → authority_id ext post (authority_of ext post a) ≡ ok id
      → authority_key ext post (authority_of ext post a)
        ≡ ok (ext.verifying_key_of a.signing_secret)
  unfolding authority_key authority_id
  key_inv a h = ground arith

  module _ (laws : CryptoLaws ext) where
    pub authority_sign-verify :
        (a : CertificateAuthoritySecret) (domain encoded : Bytes) (signature : SignatureBytes)
        {id : ℕ}
        → authority_id ext post (authority_of ext post a) ≡ ok id
        → authority_sign ext post a domain encoded ≡ ok signature
        → verify_authority ext post
            (authority_of ext post a)
            domain
            encoded
            (signature_to_bytes signature)
          ≡ ok tt
    unfolding authority_sign verify_authority
    authority_sign-verify a domain encoded signature known signed =
        let (digest, e1, e2) =
          >>=-eq-ok (from_identity (signing_digest ext domain encoded)) _ signed in
        let bytes : signature_to_bytes signature ≡ ext.ed25519_sign a.signing_secret digest =
          ap signature_to_bytes (sym (ok-injective e2)) ∙ signature_round_trip _ in
        rw (e1, key_inv a known, bytes, laws.verify-sign a.signing_secret digest)

  -- What a request that verifies hands on to the credential.
  abbrev pub Requested : CredentialRequest → Type 0
  Requested r =
      (validate_subject r.body.subject ≡ ok tt)
      × (validate ext r.body.identity ≡ ok tt)
      × ((r.body.noise_static_key == 0) ≡ false)

  pub verify_request-Requested :
      (r : CredentialRequest) (now_ms max_lifetime_ms : ℤ)
      → verify_request ext post r now_ms max_lifetime_ms ≡ ok tt
      → Requested r
  unfolding verify_request
  verify_request-Requested r now_ms max_lifetime_ms h =
      let (u1, e1, k1) =
        >>=-eq-ok
          (fail_if (not (r.body.version == credential_version))
            (unsupported_version r.body.version))
          _ h in
      let (u2, e2, k2) = >>=-eq-ok (validate_subject r.body.subject) _ k1 in
      let (u3, e3, k3) = >>=-eq-ok (from_identity (validate ext r.body.identity)) _ k2 in
      let (u4, e4, k4) =
        >>=-eq-ok
          (fail_if (r.body.noise_static_key == 0 || r.body.nonce == 0)
            (invalid_metadata "zero Noise static key or request nonce"))
          _ k3 in
      (
        e2,
        from_identity_inv (validate ext r.body.identity) e3,
        (or_false (r.body.noise_static_key == 0) (r.body.nonce == 0) (not_refused _ _ e4)).0,
      )

  -- What an authority put into a credential that it issued.
  pub record IssuedBy (a : CertificateAuthoritySecret) (r : CredentialRequest) (serial : ℕ)
      (now_ms not_after_ms : ℤ) (c : NativeCredential) : Type 0 where
    pub issuer : ℕ
    pub known : authority_id ext post (authority_of ext post a) ≡ ok issuer
    pub requested : Requested r
    pub valid_range : validate_time_range now_ms not_after_ms ≡ ok tt
    pub filled :
        c.body ≡ credential_body issuer serial (request_id ext post r) r now_ms not_after_ms
    pub signed :
        authority_sign ext post a credential_domain (post.credential_body_bytes c.body)
        ≡ ok c.signature

  pub issue-IssuedBy :
      (a : CertificateAuthoritySecret) (r : CredentialRequest) (serial : ℕ)
      (now_ms not_after_ms max_lifetime_ms : ℤ) (c : NativeCredential)
      → issue ext post a r serial now_ms not_after_ms max_lifetime_ms ≡ ok c
      → IssuedBy a r serial now_ms not_after_ms c
  unfolding issue
  issue-IssuedBy a r serial now_ms not_after_ms max_lifetime_ms c h =
      let (u1, e1, k1) = >>=-eq-ok (verify_request ext post r now_ms max_lifetime_ms) _ h in
      let (u2, e2, k2) = >>=-eq-ok (validate_time_range now_ms not_after_ms) _ k1 in
      let (id, e3, k3) = >>=-eq-ok (authority_id ext post (authority_of ext post a)) _ k2 in
      let body = credential_body id serial (request_id ext post r) r now_ms not_after_ms in
      let (s, e4, k4) =
        >>=-eq-ok (authority_sign ext post a credential_domain (post.credential_body_bytes body)) _
          k3 in
      let same = ok-injective k4 in
      let filled : c.body ≡ body = ap (λ (x : NativeCredential). x.body) (sym same) in
      record {
        issuer = id;
        known = e3;
        requested = verify_request-Requested r now_ms max_lifetime_ms e1;
        valid_range = e2;
        filled = filled;
        signed =
            subst
              (λ (x : NativeCredential).
                authority_sign ext post a credential_domain (post.credential_body_bytes x.body)
                ≡ ok x.signature)
              same e4;
      }
