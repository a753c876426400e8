-- ===== src/Pairing/Policy.antt =====
-- crates/protocol/src/pairing.rs: the decisions that a publisher makes without a confirmation.
use glacialcast.Prelude.{
  ℕ, ◌≡◌, refl, subst, true, false, not, Bool, ℤ, ok, fail_if, >>=-eq-ok, ok-injective, ◌⊎◌, inl,
  inr, ◌==◌, ◌||◌,
}
use glacialcast.Native.Types.{IdentitySecret}
use glacialcast.Native.External.{External, CryptoLaws}
use glacialcast.Native.Identity.{public_of, validate, fingerprint, sign}
use glacialcast.Native.Inversions.{not_refused}
use glacialcast.Native.Sealing.{passes}
use glacialcast.Pairing.Types.{
  PairRequest, PairRequestBody, PairDecisionReason, rejected, PublisherDecision, decision_domain,
  unsupported_version, transcript_mismatch, invalid_metadata, pairing_version, protocol_version,
}
use glacialcast.Pairing.Postcard.{PairingPostcard}
use glacialcast.Pairing.Checks.{from_identity}
use glacialcast.Pairing.Request.{validate_request_metadata}
use glacialcast.Pairing.Decision.{
  automatic, validate_decision, decision_body, sign_decision, require_publisher, reject,
  approve_by_policy, verify_decision,
}
use glacialcast.Pairing.Signed.{from_identity_inv, same_identity_sound, same_identity_refl, holds}
use glacialcast.Pairing.Ceremony.{verify_signed_lem}

module _ (ext : External) (post : PairingPostcard) where
  -- A decision that `reject` or `approve_by_policy` made on a request.
  abbrev pub Unattended : IdentitySecret → PairRequest → PublisherDecision → Type 0
  Unattended publisher r d =
      ((at : ℤ) × (reject ext post publisher r at ≡ ok d))
      ⊎ ((at : ℤ) × (reason : PairDecisionReason) × (approve_by_policy ext post publisher r reason
              at
            ≡ ok d))

  requested_publisher :
      (b : PairRequestBody)
      → validate_request_metadata ext b ≡ ok tt
      → validate ext b.publisher ≡ ok tt
  unfolding validate_request_metadata
  requested_publisher b h =
      let (u1, e1, k1) =
        >>=-eq-ok
          (fail_if
            (not (b.version == pairing_version) || not (b.protocol_version == protocol_version))
            unsupported_version)
          _ h in
      from_identity_inv (validate ext b.publisher)
        (>>=-eq-ok (from_identity (validate ext b.publisher)) _ k1).1

  own_identity :
      (publisher : IdentitySecret) (r : PairRequest)
      → require_publisher ext post publisher r ≡ ok tt
      → public_of ext publisher ≡ ok r.body.publisher
  own_identity publisher r h =
      let (public, derived, k) = >>=-eq-ok (from_identity (public_of ext publisher)) _ h in
      subst (λ p. public_of ext publisher ≡ ok p)
        (same_identity_sound public r.body.publisher
          (holds _ (not_refused _ transcript_mismatch k)))
        (from_identity_inv (public_of ext publisher) derived)

  module _ (laws : CryptoLaws ext) where
    signed_verifies :
        (publisher : IdentitySecret) (r : PairRequest) (id transcript : ℕ) (approved : Bool)
        (reason : PairDecisionReason) (at : ℤ) (d : PublisherDecision)
        → validate_request_metadata ext r.body ≡ ok tt
        → require_publisher ext post publisher r ≡ ok tt
        → fingerprint ext r.body.viewer ≡ ok id
        → sign_decision ext post publisher
            (decision_body ext post r id transcript approved reason at)
          ≡ ok d
        → verify_decision ext post d r r.body.publisher ≡ ok tt
    unfolding sign_decision verify_decision
    signed_verifies publisher r id transcript approved reason at d metadata owns named h =
        let body = decision_body ext post r id transcript approved reason at in
        let (u1, valid, k1) = >>=-eq-ok (validate_decision body) _ h in
        let (signature, e2, k2) =
          >>=-eq-ok
            (from_identity (sign ext publisher decision_domain (post.decision_body_bytes body))) _
            k1 in
        subst (λ x. verify_decision ext post x r r.body.publisher ≡ ok tt) (ok-injective k2)
          (rw (
            valid,
            same_identity_refl r.body.publisher,
            passes {m = body.request_id} refl,
            named,
            passes {m = id} refl,
            passes {m = r.body.stream_id} refl,
            verify_signed_lem ext post laws publisher r.body.publisher decision_domain
                (post.decision_body_bytes body) signature (own_identity publisher r owns)
                (requested_publisher r.body metadata)
                (from_identity_inv
                  (sign ext publisher decision_domain (post.decision_body_bytes body)) e2),
          ))

    -- Under the laws of signatures, a decision that reject or approve_by_policy made on a
    -- request with valid metadata verifies for the request's publisher.
    pub Unattended-verify_decision :
        (publisher : IdentitySecret) (r : PairRequest) (d : PublisherDecision)
        → validate_request_metadata ext r.body ≡ ok tt
        → Unattended publisher r d
        → verify_decision ext post d r r.body.publisher ≡ ok tt
    unfolding reject approve_by_policy
    Unattended-verify_decision publisher r d metadata (inl (at, h)) =
        let (u1, owns, k1) = >>=-eq-ok (require_publisher ext post publisher r) _ h in
        let (id, named, k2) = >>=-eq-ok (from_identity (fingerprint ext r.body.viewer)) _ k1 in
        signed_verifies publisher r id 0 false rejected at d metadata owns
          (from_identity_inv (fingerprint ext r.body.viewer) named) k2
    Unattended-verify_decision publisher r d metadata (inr (at, reason, h)) =
        let (u1, owns, k1) = >>=-eq-ok (require_publisher ext post publisher r) _ h in
        let (u2, policy, k2) =
          >>=-eq-ok
            (fail_if (not (automatic reason))
              (invalid_metadata "invalid automatic approval reason"))
            _ k1 in
        let (id, named, k3) = >>=-eq-ok (from_identity (fingerprint ext r.body.viewer)) _ k2 in
        signed_verifies publisher r id 0 true reason at d metadata owns
          (from_identity_inv (fingerprint ext r.body.viewer) named) k3
