-- ===== src/Pairing/Completion.antt =====
-- crates/protocol/src/pairing.rs: the ceremony from a signed request and a signed offer on.
use glacialcast.Prelude.{
  ℕ, ◌≡◌, ◌≢◌, refl, subst, false, not, ◌||◌, Option, List, ℤ, ok, fail_if, ◌==◌, leb_ℤ, >>=-eq-ok,
  arith, ◌↔◌, Bool, true,
}
use glacialcast.Native.Types.{IdentityPublic, IdentitySecret}
use glacialcast.Native.External.{External, CryptoLaws}
use glacialcast.Native.Identity.{validate}
use glacialcast.Native.Inversions.{not_refused}
use glacialcast.Credential.Types.{NativeCredential}
use glacialcast.Pairing.Types.{
  unsupported_version, invalid_metadata, PairRequestBody, PairRequest, PairOfferBody, PairOffer,
  ViewerConfirmation, PublisherDecisionBody, PublisherDecision, manual_verified, pairing_version,
  protocol_version, offer_domain, decision_domain,
}
use glacialcast.Pairing.Postcard.{PairingPostcard}
use glacialcast.Pairing.Checks.{from_identity, validate_time}
use glacialcast.Pairing.Request.{validate_request_metadata, new_request, verify_request}
use glacialcast.Pairing.Offer.{
  validate_offer_metadata, new_offer, verify_offer, approve_offer, verify_confirmation,
}
use glacialcast.Pairing.Decision.{validate_decision, decision_body, approve_manual, verify_decision}
use glacialcast.Pairing.Signed.{
  from_identity_inv, sign_total, Requested, new_request-Requested, Offered, new_offer-Offered,
  transcript_of, answers, valid_publisher,
}
use glacialcast.Pairing.Ceremony.{
  verify_signed_lem, Requested-passes, confirmed, decides, decision_passes,
}

module _ (ext : External) (post : PairingPostcard) where
  stream_named :
      (b : PairRequestBody)
      → validate_request_metadata ext b ≡ ok tt
      → (validate ext b.viewer ≡ ok tt) × ((b.stream_id == 0) ≡ false)
  unfolding validate_request_metadata
  stream_named b h =
      let (u1, e1, k1) =
        >>=-eq-ok
          (fail_if
            (not (b.version == pairing_version) || not (b.protocol_version == protocol_version))
            unsupported_version)
          _ h in
      let (u2, e2, k2) = >>=-eq-ok (from_identity (validate ext b.publisher)) _ k1 in
      let (u3, e3, k3) = >>=-eq-ok (from_identity (validate ext b.viewer)) _ k2 in
      let (u4, e4, k4) =
        >>=-eq-ok (fail_if (b.stream_id == 0) (invalid_metadata "nil requested stream")) _ k3 in
      (from_identity_inv (validate ext b.viewer) e3, not_refused _ _ e4)

  ids_named :
      (b : PairOfferBody)
      → validate_offer_metadata ext b ≡ ok tt
      → ((b.request_id == 0) ≡ false) × ((b.viewer_id == 0) ≡ false)
  unfolding validate_offer_metadata
  ids_named b h =
      let (u1, e1, k1) =
        >>=-eq-ok (fail_if (not (b.version == pairing_version)) unsupported_version) _ h in
      let (u2, e2, k2) = >>=-eq-ok (from_identity (validate ext b.publisher)) _ k1 in
      first_two (b.request_id == 0) (b.viewer_id == 0) (b.nonce == 0) (b.relay_context == 0)
        (leb_ℤ b.expires_at_ms b.issued_at_ms) (not_refused _ _ k2)
    where
      first_two : (m n p q t : Bool) → (m || n || p || q || t) ≡ false → (m ≡ false) × (n ≡ false)
      first_two m n p q t h = ground arith

  valid_body :
      (r : PairRequest) (o : PairOffer) (publisher : IdentitySecret) (at : ℤ)
      → validate_request_metadata ext r.body ≡ ok tt
      → Offered ext post publisher r o
      → transcript_of ext post r o ≢ 0
      → validate_decision (
          decision_body ext post r o.body.viewer_id
            (transcript_of ext post r o)
            true
            manual_verified
            at)
        ≡ ok tt
  unfolding validate_decision
  valid_body r o publisher at valid w set =
      let (request, viewer) = ids_named o.body w.valid in
      rw (
        subst (λ (n : ℕ). (n == 0) ≡ false) w.same_request request,
        viewer,
        (stream_named r.body valid).1,
        differs (transcript_of ext post r o) set,
      )
    where
      differs : (n : ℕ) → n ≢ 0 → (n == 0) ≡ false
      differs n h = ground arith

  -- A confirmation and a decision that both sides accept.
  abbrev pub Completed : IdentitySecret → IdentitySecret → PairRequest → PairOffer → ℤ → ℤ → Type 0
  Completed viewer publisher r o confirmed_at decided_at =
      (c : ViewerConfirmation) × (d : PublisherDecision) × (approve_offer ext post viewer r o
          confirmed_at
        ≡ ok c)
      × (verify_confirmation ext post c r o ≡ ok tt)
      × (approve_manual ext post publisher r o c decided_at ≡ ok d)
      × (verify_decision ext post d r r.body.publisher ≡ ok tt)

  module _ (laws : CryptoLaws ext) where
    complete :
        (viewer publisher : IdentitySecret) (r : PairRequest) (o : PairOffer)
        (confirmed_at decided_at : ℤ)
        → Requested ext post viewer r
        → Offered ext post publisher r o
        → transcript_of ext post r o ≢ 0
        → Completed viewer publisher r o confirmed_at decided_at
    complete viewer publisher r o confirmed_at decided_at q w set =
        let (c, approved, confirms) =
          confirmed ext post laws viewer publisher r o confirmed_at q w in
        let body : PublisherDecisionBody =
          decision_body ext post r o.body.viewer_id (transcript_of ext post r o) true
            manual_verified decided_at in
        let valid = valid_body r o publisher decided_at q.valid w set in
        let (signature, signed) =
          sign_total ext publisher decision_domain (post.decision_body_bytes body) (omega arith) in
        let d : PublisherDecision = record { body = body; signature = signature } in
        (
          c,
          d,
          approved,
          confirms,
          decides ext post laws viewer publisher r o c decided_at signature q w confirms valid
              signed,
          decision_passes ext post laws viewer publisher r o d decided_at w valid refl signed,
        )

    -- Under the laws of the cryptography, from a request that new_request made and an offer on
    -- it that new_offer made, with a transcript hash that is not zero, approve_offer gives a
    -- confirmation that verifies, and approve_manual with it gives a decision that verifies for
    -- the request's publisher.
    pub ceremony_completes :
        (viewer publisher : IdentitySecret) (public : IdentityPublic) (stream_id : ℕ)
        (label : List ℕ) (credential : Option NativeCredential) (nonce : ℕ) (issued expires : ℤ)
        (r : PairRequest) (context offer_nonce : ℕ) (offered offer_expires max_lifetime : ℤ)
        (o : PairOffer) (confirmed_at decided_at : ℤ)
        → new_request ext post viewer public stream_id label credential nonce issued expires ≡ ok r
        → new_offer ext post publisher r context offer_nonce offered offer_expires max_lifetime
          ≡ ok o
        → transcript_of ext post r o ≢ 0
        → Completed viewer publisher r o confirmed_at decided_at
    ceremony_completes viewer publisher public stream_id label credential nonce issued expires r
          context offer_nonce offered offer_expires max_lifetime o confirmed_at decided_at h g set =
        complete viewer publisher r o confirmed_at decided_at
          (new_request-Requested ext post viewer public stream_id label credential nonce issued
            expires r h)
          (new_offer-Offered ext post publisher r context offer_nonce offered offer_expires
            max_lifetime o g)
          set

    -- Under the laws of the cryptography, an offer that new_offer made on a request that
    -- new_request made verifies at a time and lifetime exactly when validate_time passes both
    -- the request's and the offer's times.
    pub new_offer-verify_offer :
        (viewer publisher : IdentitySecret) (public : IdentityPublic) (stream_id : ℕ)
        (label : List ℕ) (credential : Option NativeCredential) (nonce : ℕ) (issued expires : ℤ)
        (r : PairRequest) (context offer_nonce : ℕ) (offered offer_expires max_lifetime : ℤ)
        (o : PairOffer) (now_ms lifetime : ℤ)
        → new_request ext post viewer public stream_id label credential nonce issued expires ≡ ok r
        → new_offer ext post publisher r context offer_nonce offered offer_expires max_lifetime
          ≡ ok o
        → (verify_offer ext post o r now_ms lifetime ≡ ok tt) ↔ (
            (validate_time r.body.issued_at_ms r.body.expires_at_ms now_ms lifetime ≡ ok tt)
            × (validate_time o.body.issued_at_ms o.body.expires_at_ms now_ms lifetime ≡ ok tt))
    unfolding verify_offer verify_request
    new_offer-verify_offer viewer publisher public stream_id label credential nonce issued expires r
          context offer_nonce offered offer_expires max_lifetime o now_ms lifetime h g =
        let q =
          new_request-Requested ext post viewer public stream_id label credential nonce issued
            expires r h in
        let w =
          new_offer-Offered ext post publisher r context offer_nonce offered offer_expires
            max_lifetime o g in
        (
          λ v.
              let (u1, e1, k1) = >>=-eq-ok (validate_offer_metadata ext o.body) _ v in
              let (u2, e2, k2) = >>=-eq-ok (verify_request ext post r now_ms lifetime) _ k1 in
              let (u3, e3, k3) = >>=-eq-ok (validate_request_metadata ext r.body) _ e2 in
              (
                (>>=-eq-ok (validate_time r.body.issued_at_ms r.body.expires_at_ms now_ms lifetime)
                    _ k3).1,
                (>>=-eq-ok (validate_time o.body.issued_at_ms o.body.expires_at_ms now_ms lifetime)
                    _ k2).1,
              ),
          λ t. rw (
            w.valid,
            Requested-passes ext post laws viewer r now_ms lifetime q
                (stream_named r.body q.valid).0 t.0,
            t.1,
            answers ext post publisher r o w,
            verify_signed_lem ext post laws publisher o.body.publisher offer_domain
                (post.offer_body_bytes o.body) o.signature w.derived
                (valid_publisher ext post o.body w.valid) w.signed,
          ),
        )
