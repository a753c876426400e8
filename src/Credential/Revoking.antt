-- ===== src/Credential/Revoking.antt =====
-- crates/protocol/src/credential.rs: what a revocation list does to a credential.
use glacialcast.Prelude.{
  ℕ, ◌≡◌, ◌≢◌, refl, sym, ap, ◌∙◌, subst, Bool, true, false, some, List, ℤ, ok, err, fail_if, ◌==◌,
  ltb, leb, ◌<ℤ◌, ◌≤ℤ◌, length, >>=-eq-ok, ok-injective, if◌then◌else◌,
}
use glacialcast.Native.External.{External, CryptoLaws}
use glacialcast.Native.Identity.{signature_to_bytes}
use glacialcast.Native.Inversions.{not_refused}
use glacialcast.Native.Sealing.{passes}
use glacialcast.Credential.Types.{
  revoked, invalid_metadata, CertificateAuthorityPublic, CertificateAuthoritySecret,
  CredentialRequest, NativeCredential, RevocationListBody, RevocationList, credential_version,
  revocation_domain, max_revoked_serials,
}
use glacialcast.Credential.Postcard.{CredentialPostcard}
use glacialcast.Credential.Authority.{
  validate_time_range, authority_id, authority_of, authority_sign,
}
use glacialcast.Credential.Request.{request_id}
use glacialcast.Credential.Revocation.{
  any_pair, sort_unstable, revocation_body, verify_authority, verify_revocations, sign_revocations,
  binary_search,
}
use glacialcast.Credential.Issued.{issue, verify_unrevoked, verify_credential}
use glacialcast.Credential.Searching.{contains, binary_search-contains}
use glacialcast.Credential.Sorting.{
  Ascending-any_pair, sort_unstable-Ascending, length-sort_unstable, contains-sort_unstable,
}
use glacialcast.Credential.Issuance.{within, within_iff, authority_sign-verify, issue-IssuedBy}
use glacialcast.Credential.Issuing.{issued_passes}

module _ (ext : External) (post : CredentialPostcard) where
  -- What an authority put into a list that it signed.
  record ListedBy (a : CertificateAuthoritySecret) (from until : ℤ) (serials : List ℕ)
      (l : RevocationList) : Type 0 where
    issuer : ℕ
    known : authority_id ext post (authority_of ext post a) ≡ ok issuer
    valid_range : validate_time_range from until ≡ ok tt
    counted : ltb max_revoked_serials (length serials) ≡ false
    unique : any_pair ◌==◌ (sort_unstable serials) ≡ false
    filled : l.body ≡ revocation_body ext post issuer from until (sort_unstable serials)
    signed :
        authority_sign ext post a revocation_domain (post.revocation_body_bytes l.body)
        ≡ ok l.signature

  sign_revocations-ListedBy :
      (a : CertificateAuthoritySecret) (from until : ℤ) (serials : List ℕ) (l : RevocationList)
      → sign_revocations ext post a from until serials ≡ ok l
      → ListedBy a from until serials l
  unfolding sign_revocations
  sign_revocations-ListedBy a from until serials l h =
      let (u1, e1, k1) = >>=-eq-ok (validate_time_range from until) _ h in
      let (u2, e2, k2) =
        >>=-eq-ok
          (fail_if (ltb max_revoked_serials (length serials))
            (invalid_metadata "too many revoked serials"))
          _ k1 in
      let (u3, e3, k3) =
        >>=-eq-ok
          (fail_if (any_pair ◌==◌ (sort_unstable serials))
            (invalid_metadata "duplicate revoked serial"))
          _ k2 in
      let (id, e4, k4) = >>=-eq-ok (authority_id ext post (authority_of ext post a)) _ k3 in
      let body = revocation_body ext post id from until (sort_unstable serials) in
      let (s, e5, k5) =
        >>=-eq-ok (authority_sign ext post a revocation_domain (post.revocation_body_bytes body)) _
          k4 in
      let same = ok-injective k5 in
      record {
        issuer = id;
        known = e4;
        valid_range = e1;
        counted = not_refused _ _ e2;
        unique = not_refused _ _ e3;
        filled = ap (λ (x : RevocationList). x.body) (sym same);
        signed =
            subst
              (λ (x : RevocationList).
                authority_sign ext post a revocation_domain (post.revocation_body_bytes x.body)
                ≡ ok x.signature)
              same e5;
      }

  -- The checks on a list that do not look at the time.
  abbrev SoundList : CertificateAuthorityPublic → RevocationList → ℕ → Type 0
  SoundList authority l id =
      (l.body.version ≡ credential_version)
      × (validate_time_range l.body.generated_at_ms l.body.expires_at_ms ≡ ok tt)
      × (ltb max_revoked_serials (length l.body.serials) ≡ false)
      × (any_pair (λ a b. leb b a) l.body.serials ≡ false)
      × (authority_id ext post authority ≡ ok id)
      × (l.body.issuer_id ≡ id)
      × (verify_authority ext post authority revocation_domain (post.revocation_body_bytes l.body)
            (signature_to_bytes l.signature)
          ≡ ok tt)

  SoundList-passes :
      (authority : CertificateAuthorityPublic) (l : RevocationList) (id : ℕ) (now_ms : ℤ)
      → SoundList authority l id
      → verify_revocations ext post l authority now_ms
        ≡ within l.body.generated_at_ms l.body.expires_at_ms now_ms
  unfolding verify_revocations
  SoundList-passes authority l id now_ms (v, t, c, o, k, n, g) =
      rw (passes v, t, c, o, k, passes n, g) refl

  module _ (laws : CryptoLaws ext) (a : CertificateAuthoritySecret) where
    listed-SoundList :
        (from until : ℤ) (serials : List ℕ) (l : RevocationList)
        (w : ListedBy a from until serials l)
        → SoundList (authority_of ext post a) l w.issuer
    listed-SoundList from until serials l w =
        let back = sym w.filled in
        let sorted = sort_unstable serials in
        (
          ap (λ (b : RevocationListBody). b.version) w.filled,
          subst
              (λ (b : RevocationListBody).
                validate_time_range b.generated_at_ms b.expires_at_ms ≡ ok tt)
              back w.valid_range,
          subst (λ (b : RevocationListBody). ltb max_revoked_serials (length b.serials) ≡ false)
              back
              (subst (λ (n : ℕ). ltb max_revoked_serials n ≡ false)
                (sym (length-sort_unstable serials)) w.counted),
          subst (λ (b : RevocationListBody). any_pair (λ x y. leb y x) b.serials ≡ false) back
              (Ascending-any_pair sorted (sort_unstable-Ascending serials w.unique)),
          w.known,
          ap (λ (b : RevocationListBody). b.issuer_id) w.filled,
          authority_sign-verify ext post laws a revocation_domain
              (post.revocation_body_bytes l.body) l.signature w.known w.signed,
        )

    -- On a list that was signed, the search answers for the serials that were handed in.
    listed_search :
        (from until : ℤ) (serials : List ℕ) (l : RevocationList) (serial : ℕ)
        → ListedBy a from until serials l
        → binary_search serial l.body.serials ≡ contains serial serials
    listed_search from until serials l serial w =
        ap (λ (b : RevocationListBody). binary_search serial b.serials) w.filled
        ∙ binary_search-contains serial (sort_unstable serials)
            (sort_unstable-Ascending serials w.unique)
        ∙ contains-sort_unstable serial serials

    listed_verifies :
        (from until : ℤ) (serials : List ℕ) (l : RevocationList) (now_ms : ℤ)
        → ListedBy a from until serials l
        → from ≤ℤ now_ms
        → now_ms <ℤ until
        → verify_revocations ext post l (authority_of ext post a) now_ms ≡ ok tt
    listed_verifies from until serials l now_ms w after before =
        SoundList-passes (authority_of ext post a) l w.issuer now_ms
          (listed-SoundList from until serials l w)
        ∙ ap (λ (b : RevocationListBody). within b.generated_at_ms b.expires_at_ms now_ms) w.filled
        ∙ (within_iff from until now_ms).1 (after, before)

    -- Under the laws of signatures, a credential that an authority issued with a nonzero serial
    -- and request identifier, checked with a revocation list that the same authority signed, at
    -- a time inside both windows and for the role and key of its request, is refused as revoked
    -- when its serial is among those handed to sign_revocations, and passes otherwise.
    pub sign_revocations-verify_credential :
        (r : CredentialRequest) (serial : ℕ) (from until max_lifetime_ms : ℤ) (c : NativeCredential)
        (generated expires : ℤ) (serials : List ℕ) (l : RevocationList) (now_ms : ℤ)
        → issue ext post a r serial from until max_lifetime_ms ≡ ok c
        → sign_revocations ext post a generated expires serials ≡ ok l
        → serial ≢ 0
        → request_id ext post r ≢ 0
        → from ≤ℤ now_ms × now_ms <ℤ until
        → generated ≤ℤ now_ms × now_ms <ℤ expires
        → verify_credential ext post c
            (authority_of ext post a)
            (some l)
            r.body.role
            r.body.noise_static_key
            now_ms
          ≡ (if contains serial serials then err revoked else ok tt)
    unfolding verify_unrevoked
    sign_revocations-verify_credential r serial from until max_lifetime_ms c generated expires
          serials l now_ms h g drawn named lives listed =
        let w = issue-IssuedBy ext post a r serial from until max_lifetime_ms c h in
        let v = sign_revocations-ListedBy a generated expires serials l g in
        let number : c.body.serial ≡ serial = ap (λ b. b.serial) w.filled in
        issued_passes ext post laws a r serial from until c (some l) now_ms w drawn named
        ∙ rw
            (
              (within_iff from until now_ms).1 lives,
              listed_verifies generated expires serials l now_ms v listed.0 listed.1,
              number,
              listed_search generated expires serials l serial v,
            )
            (refused (contains serial serials))
      where
        refused : (b : Bool) → fail_if b revoked ≡ (if b then err revoked else ok tt)
        refused true = refl
        refused false = refl
