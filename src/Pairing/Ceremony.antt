-- ===== src/Pairing/Ceremony.antt =====
-- crates/protocol/src/pairing.rs: a ceremony from its request to the publisher's decision.
use glacialcast.Prelude.{◌≡◌, refl, ap, subst, true, Bytes, ℤ, ok, arith}
use glacialcast.Native.Types.{IdentityPublic, IdentitySecret, SignatureBytes}
use glacialcast.Native.External.{External, CryptoLaws}
use glacialcast.Native.Identity.{public_of, validate, sign}
use glacialcast.Native.Sealing.{passes, sign-verify, valid_of_fingerprint}
use glacialcast.Pairing.Types.{
  PairRequest, PairOffer, ViewerConfirmationBody, ViewerConfirmation, PublisherDecisionBody,
  PublisherDecision, manual_verified, request_domain, confirm_domain, decision_domain,
}
use glacialcast.Pairing.Postcard.{PairingPostcard}
use glacialcast.Pairing.Checks.{validate_time, verify_signed}
use glacialcast.Pairing.Request.{verify_request}
use glacialcast.Pairing.Offer.{confirmation_body, approve_offer, verify_confirmation}
use glacialcast.Pairing.Decision.{
  validate_decision, decision_body, sign_decision, approve_manual, verify_decision,
}
use glacialcast.Pairing.Signed.{
  Offered, Requested, hashes, same_identity_refl, same_identity_sound, sign_total, transcript_of,
  valid_publisher,
}

module _ (ext : External) (post : PairingPostcard) where
  module _ (laws : CryptoLaws ext) where
    pub verify_signed_lem :
        (s : IdentitySecret) (public : IdentityPublic) (domain encoded : Bytes)
        (signature : SignatureBytes)
        → public_of ext s ≡ ok public
        → validate ext public ≡ ok tt
        → sign ext s domain encoded ≡ ok signature
        → verify_signed ext public domain encoded signature ≡ ok tt
    unfolding verify_signed
    verify_signed_lem s public domain encoded signature derived valid signed =
        rw (sign-verify ext laws s public domain encoded signature derived valid signed) refl

    -- A request passes at the times at which its window does.
    pub Requested-passes :
        (viewer : IdentitySecret) (r : PairRequest) (now_ms max_lifetime_ms : ℤ)
        → Requested ext post viewer r
        → validate ext r.body.viewer ≡ ok tt
        → validate_time r.body.issued_at_ms r.body.expires_at_ms now_ms max_lifetime_ms ≡ ok tt
        → verify_request ext post r now_ms max_lifetime_ms ≡ ok tt
    unfolding verify_request
    Requested-passes viewer r now_ms max_lifetime_ms q valid fresh = rw (
      q.valid,
      fresh,
      verify_signed_lem viewer r.body.viewer request_domain (post.request_body_bytes r.body)
          r.signature q.derived valid q.signed,
    )

    approves :
        (viewer publisher : IdentitySecret) (r : PairRequest) (o : PairOffer) (at : ℤ)
        (signature : SignatureBytes)
        → Requested ext post viewer r
        → Offered ext post publisher r o
        → sign ext viewer confirm_domain (
            post.confirmation_body_bytes
              (confirmation_body ext post r (transcript_of ext post r o) o.body.viewer_id at))
          ≡ ok signature
        → approve_offer ext post viewer r o at
          ≡ ok (record {
            body = confirmation_body ext post r (transcript_of ext post r o) o.body.viewer_id at;
            signature = signature;
          })
    unfolding approve_offer
    approves viewer publisher r o at signature q w signed = rw (
      q.derived,
      w.named,
      passes {m = o.body.viewer_id} refl,
      hashes ext post viewer publisher r o q w,
      signed,
    )

    confirmation_passes :
        (viewer publisher : IdentitySecret) (r : PairRequest) (o : PairOffer)
        (c : ViewerConfirmation) (at : ℤ)
        → Requested ext post viewer r
        → Offered ext post publisher r o
        → c.body ≡ confirmation_body ext post r (transcript_of ext post r o) o.body.viewer_id at
        → sign ext viewer confirm_domain (post.confirmation_body_bytes c.body) ≡ ok c.signature
        → verify_confirmation ext post c r o ≡ ok tt
    unfolding verify_confirmation
    confirmation_passes viewer publisher r o c at q w filled signed = rw (
      passes (ap (λ (b : ViewerConfirmationBody). b.version) filled),
      passes (ap (λ (b : ViewerConfirmationBody). b.request_id) filled),
      hashes ext post viewer publisher r o q w,
      passes (ap (λ (b : ViewerConfirmationBody). b.transcript_hash) filled),
      w.named,
      passes (ap (λ (b : ViewerConfirmationBody). b.viewer_id) filled),
      verify_signed_lem viewer r.body.viewer confirm_domain (post.confirmation_body_bytes c.body)
          c.signature q.derived
          (valid_of_fingerprint ext laws r.body.viewer o.body.viewer_id w.named) signed,
    )

    pub confirmed :
        (viewer publisher : IdentitySecret) (r : PairRequest) (o : PairOffer) (at : ℤ)
        → Requested ext post viewer r
        → Offered ext post publisher r o
        → (c : ViewerConfirmation) × (approve_offer ext post viewer r o at ≡ ok c)
          × (verify_confirmation ext post c r o ≡ ok tt)
    confirmed viewer publisher r o at q w =
        let body : ViewerConfirmationBody =
          confirmation_body ext post r (transcript_of ext post r o) o.body.viewer_id at in
        let (signature, signed) =
          sign_total ext viewer confirm_domain (post.confirmation_body_bytes body) (omega arith) in
        (
          record { body = body; signature = signature },
          approves viewer publisher r o at signature q w signed,
          confirmation_passes viewer publisher r o (record { body = body; signature = signature })
              at q w refl signed,
        )

    pub decides :
        (viewer publisher : IdentitySecret) (r : PairRequest) (o : PairOffer)
        (c : ViewerConfirmation) (at : ℤ) (signature : SignatureBytes)
        → Requested ext post viewer r
        → Offered ext post publisher r o
        → verify_confirmation ext post c r o ≡ ok tt
        → validate_decision (
            decision_body ext post r o.body.viewer_id
              (transcript_of ext post r o)
              true
              manual_verified
              at)
          ≡ ok tt
        → sign ext publisher decision_domain (
            post.decision_body_bytes (
              decision_body ext post r o.body.viewer_id
                (transcript_of ext post r o)
                true
                manual_verified
                at))
          ≡ ok signature
        → approve_manual ext post publisher r o c at
          ≡ ok (record {
            body =
                decision_body ext post r o.body.viewer_id
                  (transcript_of ext post r o)
                  true
                  manual_verified
                  at;
            signature = signature;
          })
    unfolding approve_manual sign_decision
    decides viewer publisher r o c at signature q w confirms valid signed = rw (
      confirms,
      w.derived,
      w.same_publisher,
      w.named,
      hashes ext post viewer publisher r o q w,
      valid,
      signed,
    )

    pub decision_passes :
        (viewer publisher : IdentitySecret) (r : PairRequest) (o : PairOffer)
        (d : PublisherDecision) (at : ℤ)
        → Offered ext post publisher r o
        → validate_decision d.body ≡ ok tt
        → d.body
          ≡ decision_body ext post r o.body.viewer_id
              (transcript_of ext post r o)
              true
              manual_verified
              at
        → sign ext publisher decision_domain (post.decision_body_bytes d.body) ≡ ok d.signature
        → verify_decision ext post d r r.body.publisher ≡ ok tt
    unfolding verify_decision
    decision_passes viewer publisher r o d at w valid filled signed =
        let same = same_identity_sound o.body.publisher r.body.publisher w.same_publisher in
        rw (
          valid,
          same_identity_refl r.body.publisher,
          passes (ap (λ (b : PublisherDecisionBody). b.request_id) filled),
          w.named,
          passes (ap (λ (b : PublisherDecisionBody). b.viewer_id) filled),
          passes (ap (λ (b : PublisherDecisionBody). b.stream_id) filled),
          verify_signed_lem publisher r.body.publisher decision_domain
              (post.decision_body_bytes d.body) d.signature
              (subst (λ p. public_of ext publisher ≡ ok p) same w.derived)
              (subst (λ p. validate ext p ≡ ok tt) same (valid_publisher ext post o.body w.valid))
              signed,
        )
