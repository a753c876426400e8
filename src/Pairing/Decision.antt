-- ===== src/Pairing/Decision.antt =====
-- crates/protocol/src/pairing.rs: the `PublisherDecision` that ends a ceremony.
use glacialcast.Prelude.{ℕ, Bool, true, false, not, ◌||◌, ℤ, Result, ok, ◌>>=◌, ◌>>◌, fail_if, ◌==◌}
use glacialcast.Native.Types.{IdentityPublic, IdentitySecret}
use glacialcast.Native.External.{External}
use glacialcast.Native.Identity.{public_of, fingerprint, sign}
use glacialcast.Pairing.Types.{
  PairingError, invalid_metadata, transcript_mismatch, PairRequest, PairOffer, ViewerConfirmation,
  PairDecisionReason, manual_verified, trusted_viewer_ca, open_policy, rejected,
  PublisherDecisionBody, PublisherDecision, pairing_version, decision_domain,
}
use glacialcast.Pairing.Postcard.{PairingPostcard}
use glacialcast.Pairing.Checks.{from_identity, same_identity, verify_signed}
use glacialcast.Pairing.Request.{request_id}
use glacialcast.Pairing.Offer.{transcript_hash, verify_confirmation}

-- The match of `validate_decision`, on approval, reason and an absent transcript.
abbrev pub consistent : Bool → PairDecisionReason → Bool → Bool
consistent true manual_verified absent = not absent
consistent true trusted_viewer_ca absent = absent
consistent true open_policy absent = absent
consistent true rejected absent = false
consistent false manual_verified absent = false
consistent false trusted_viewer_ca absent = false
consistent false open_policy absent = false
consistent false rejected absent = absent

unfoldable pub validate_decision : PublisherDecisionBody → Result PairingError (Unit {0})
validate_decision body = do
  fail_if
      (not (body.version == pairing_version)
        || body.request_id == 0
        || body.viewer_id == 0
        || body.stream_id == 0)
      (invalid_metadata "invalid decision metadata")
  fail_if (not (consistent body.approved body.reason (body.transcript_hash == 0)))
      (invalid_metadata "decision reason does not match approval state")

abbrev pub automatic : PairDecisionReason → Bool
automatic manual_verified = false
automatic trusted_viewer_ca = true
automatic open_policy = true
automatic rejected = false

module _ (ext : External) (post : PairingPostcard) where
  abbrev pub decision_body :
      PairRequest → ℕ → ℕ → Bool → PairDecisionReason → ℤ → PublisherDecisionBody
  decision_body request viewer_id transcript approved reason decided_at_ms = record {
    version = pairing_version;
    request_id = request_id ext post request;
    viewer_id = viewer_id;
    stream_id = request.body.stream_id;
    transcript_hash = transcript;
    approved = approved;
    reason = reason;
    decided_at_ms = decided_at_ms;
  }

  -- The private `PublisherDecision::sign`.
  unfoldable pub sign_decision :
      IdentitySecret → PublisherDecisionBody → Result PairingError PublisherDecision
  unfolding validate_decision
  sign_decision publisher body = do
    validate_decision body
    signature ← from_identity (sign ext publisher decision_domain (post.decision_body_bytes body))
    ok (record { body = body; signature = signature })

  abbrev pub require_publisher : IdentitySecret → PairRequest → Result PairingError (Unit {0})
  require_publisher publisher request = do
    public ← from_identity (public_of ext publisher)
    fail_if (not (same_identity public request.body.publisher)) transcript_mismatch

  unfoldable pub reject : IdentitySecret → PairRequest → ℤ → Result PairingError PublisherDecision
  unfolding sign_decision
  reject publisher request decided_at_ms = do
    require_publisher publisher request
    viewer_id ← from_identity (fingerprint ext request.body.viewer)
    sign_decision publisher (decision_body request viewer_id 0 false rejected decided_at_ms)

  unfoldable pub approve_manual :
      IdentitySecret
      → PairRequest
      → PairOffer
      → ViewerConfirmation
      → ℤ
      → Result PairingError PublisherDecision
  unfolding sign_decision
  approve_manual publisher request offer confirmation decided_at_ms = do
    verify_confirmation ext post confirmation request offer
    require_publisher publisher request
    viewer_id ← from_identity (fingerprint ext request.body.viewer)
    transcript ← transcript_hash ext post request offer
    sign_decision publisher
        (decision_body request viewer_id transcript true manual_verified decided_at_ms)

  unfoldable pub approve_by_policy :
      IdentitySecret → PairRequest → PairDecisionReason → ℤ → Result PairingError PublisherDecision
  unfolding sign_decision
  approve_by_policy publisher request reason decided_at_ms = do
    require_publisher publisher request
    fail_if (not (automatic reason)) (invalid_metadata "invalid automatic approval reason")
    viewer_id ← from_identity (fingerprint ext request.body.viewer)
    sign_decision publisher (decision_body request viewer_id 0 true reason decided_at_ms)

  -- `PublisherDecision::verify`.
  unfoldable pub verify_decision :
      PublisherDecision → PairRequest → IdentityPublic → Result PairingError (Unit {0})
  unfolding validate_decision
  verify_decision decision request publisher = do
    validate_decision decision.body
    fail_if
        (not (same_identity publisher request.body.publisher)
          || not (decision.body.request_id == request_id ext post request))
        transcript_mismatch
    viewer_id ← from_identity (fingerprint ext request.body.viewer)
    fail_if
        (not (decision.body.viewer_id == viewer_id)
          || not (decision.body.stream_id == request.body.stream_id))
        transcript_mismatch
    verify_signed ext publisher decision_domain (post.decision_body_bytes decision.body)
        decision.signature
