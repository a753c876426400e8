-- ===== src/Pairing/Deciding.antt =====
-- crates/protocol/src/pairing.rs: what `PublisherDecision::verify` has checked when it passes.
use glacialcast.Prelude.{
  ℕ, ◌≡◌, refl, sym, subst, Bool, true, false, not, ◌||◌, Result, ok, err, fail_if, ◌==◌, >>=-eq-ok,
  or_false, arith,
}
use glacialcast.Native.Types.{IdentityError, IdentityPublic}
use glacialcast.Native.External.{External}
use glacialcast.Native.Identity.{fingerprint, verify}
use glacialcast.Native.Inversions.{not_refused}
use glacialcast.Pairing.Types.{
  invalid_metadata, transcript_mismatch, PairRequest, PairDecisionReason, manual_verified,
  trusted_viewer_ca, open_policy, rejected, PublisherDecision, pairing_version, decision_domain,
}
use glacialcast.Pairing.Postcard.{PairingPostcard}
use glacialcast.Pairing.Checks.{from_identity, from_signature, same_identity, verify_signed}
use glacialcast.Pairing.Request.{request_id}
use glacialcast.Pairing.Decision.{consistent, validate_decision, verify_decision}
use glacialcast.Pairing.Signed.{from_identity_inv, same_identity_sound}

-- Every reason but a rejection approves, and a manual one has a transcript.
abbrev pub approves : PairDecisionReason → Bool
approves manual_verified = true
approves trusted_viewer_ca = true
approves open_policy = true
approves rejected = false

abbrev pub has_no_transcript : PairDecisionReason → Bool
has_no_transcript manual_verified = false
has_no_transcript trusted_viewer_ca = true
has_no_transcript open_policy = true
has_no_transcript rejected = true

consistent_lem :
    (approved : Bool) (reason : PairDecisionReason) (absent : Bool)
    → not (consistent approved reason absent) ≡ false
    → (approved ≡ approves reason) × (absent ≡ has_no_transcript reason)
consistent_lem true manual_verified absent h = ground arith
consistent_lem true trusted_viewer_ca absent h = ground arith
consistent_lem true open_policy absent h = ground arith
consistent_lem true rejected absent h = absurd (cc h)
consistent_lem false manual_verified absent h = absurd (cc h)
consistent_lem false trusted_viewer_ca absent h = absurd (cc h)
consistent_lem false open_policy absent h = absurd (cc h)
consistent_lem false rejected absent h = ground arith

matched : (m n : ℕ) → not (m == n) ≡ false → m ≡ n
matched m n h = ground arith

held : (b : Bool) → not b ≡ false → b ≡ true
held true h = refl
held false h = absurd (cc h)

from_signature_inv : (m : Result IdentityError (Unit {0})) → from_signature m ≡ ok tt → m ≡ ok tt
from_signature_inv (ok u) h = refl
from_signature_inv (err e) h = absurd (cc h)

module _ (ext : External) (post : PairingPostcard) where
  -- A decision of a publisher on a request.
  pub record DecidedBy (publisher : IdentityPublic) (r : PairRequest) (d : PublisherDecision)
      : Type 0 where
    pub owner : publisher ≡ r.body.publisher
    pub for_request : d.body.request_id ≡ request_id ext post r
    pub for_stream : d.body.stream_id ≡ r.body.stream_id
    pub for_viewer : fingerprint ext r.body.viewer ≡ ok d.body.viewer_id
    pub grants : d.body.approved ≡ approves d.body.reason
    pub compared : (d.body.transcript_hash == 0) ≡ has_no_transcript d.body.reason
    pub signed :
        verify ext publisher decision_domain (post.decision_body_bytes d.body) d.signature ≡ ok tt

  -- A decision that verifies for a publisher on a request is signed by that publisher, who is
  -- the request's, carries the request's identifier, stream and viewer, approves exactly when
  -- its reason is not the rejection, and has a transcript that is not zero exactly when its
  -- reason is the manual one.
  pub verify_decision-DecidedBy :
      (d : PublisherDecision) (r : PairRequest) (publisher : IdentityPublic)
      → verify_decision ext post d r publisher ≡ ok tt
      → DecidedBy publisher r d
  unfolding verify_decision validate_decision verify_signed
  verify_decision-DecidedBy d r publisher h =
      let (u1, e1, k1) = >>=-eq-ok (validate_decision d.body) _ h in
      let (u2, e2, k2) =
        >>=-eq-ok
          (fail_if
            (not (same_identity publisher r.body.publisher)
              || not (d.body.request_id == request_id ext post r))
            transcript_mismatch)
          _ k1 in
      let (viewer, e3, k3) = >>=-eq-ok (from_identity (fingerprint ext r.body.viewer)) _ k2 in
      let (u4, e4, k4) =
        >>=-eq-ok
          (fail_if (not (d.body.viewer_id == viewer) || not (d.body.stream_id == r.body.stream_id))
            transcript_mismatch)
          _ k3 in
      let (u5, e5, k5) =
        >>=-eq-ok
          (fail_if
            (not (d.body.version == pairing_version)
              || d.body.request_id == 0
              || d.body.viewer_id == 0
              || d.body.stream_id == 0)
            (invalid_metadata "invalid decision metadata"))
          _ e1 in
      let (foreign, other_request) = or_false _ _ (not_refused _ transcript_mismatch e2) in
      let (other_viewer, other_stream) = or_false _ _ (not_refused _ transcript_mismatch e4) in
      let (granted, compared) =
        consistent_lem d.body.approved d.body.reason (d.body.transcript_hash == 0)
          (not_refused _ (invalid_metadata "decision reason does not match approval state") k5) in
      record {
        owner =
            same_identity_sound publisher r.body.publisher
              (held (same_identity publisher r.body.publisher) foreign);
        for_request = matched d.body.request_id (request_id ext post r) other_request;
        for_stream = matched d.body.stream_id r.body.stream_id other_stream;
        for_viewer =
            subst (λ (n : ℕ). fingerprint ext r.body.viewer ≡ ok n)
              (sym (matched d.body.viewer_id viewer other_viewer))
              (from_identity_inv (fingerprint ext r.body.viewer) e3);
        grants = granted;
        compared = compared;
        signed =
            from_signature_inv
              (verify ext publisher decision_domain (post.decision_body_bytes d.body) d.signature)
              k4;
      }
