-- ===== src/Pairing/Postcard.antt =====
-- What crates/protocol/src/pairing.rs and crates/relay/src/pairing_store.rs call of the Postcard serializer, as
-- functions that the model takes as an argument, and what they rely on of them.
use glacialcast.Prelude.{◌≡◌, ◌++◌, Bytes, Option, some}
use glacialcast.Pairing.Types.{
  PairRequestBody, PairRequest, PairOfferBody, PairOffer, PairTranscript, ViewerConfirmationBody,
  ViewerConfirmation, PublisherDecisionBody, PublisherDecision,
}

-- `to_stdvec` at each type, and `take_from_bytes` with what it leaves.
pub record PairingPostcard : Type 0 where
  pub request_body_bytes : PairRequestBody → Bytes
  pub request_bytes : PairRequest → Bytes
  pub take_request : Bytes → Option (PairRequest × Bytes)
  pub offer_body_bytes : PairOfferBody → Bytes
  pub offer_bytes : PairOffer → Bytes
  pub take_offer : Bytes → Option (PairOffer × Bytes)
  pub transcript_bytes : PairTranscript → Bytes
  pub confirmation_body_bytes : ViewerConfirmationBody → Bytes
  pub confirmation_bytes : ViewerConfirmation → Bytes
  pub take_confirmation : Bytes → Option (ViewerConfirmation × Bytes)
  pub decision_body_bytes : PublisherDecisionBody → Bytes
  pub decision_bytes : PublisherDecision → Bytes
  pub take_decision : Bytes → Option (PublisherDecision × Bytes)

pub record PairingPostcardLaws (post : PairingPostcard) : Type 0 where
  pub take-request :
      (r : PairRequest) (rest : Bytes)
      → post.take_request (post.request_bytes r ++ rest) ≡ some (r, rest)
  pub take-offer :
      (o : PairOffer) (rest : Bytes) → post.take_offer (post.offer_bytes o ++ rest) ≡ some (o, rest)
  pub take-confirmation :
      (c : ViewerConfirmation) (rest : Bytes)
      → post.take_confirmation (post.confirmation_bytes c ++ rest) ≡ some (c, rest)
  pub take-decision :
      (d : PublisherDecision) (rest : Bytes)
      → post.take_decision (post.decision_bytes d ++ rest) ≡ some (d, rest)
