-- ===== src/PairingStore/Effects.antt =====
-- crates/relay/src/pairing_store.rs: what a transaction does to the rows that its purge leaves.
use glacialcast.Prelude.{ℕ, ◌≡◌, Option, none, some, List, ◌∷◌, Bytes, ℤ, ok}
use glacialcast.Native.External.{External}
use glacialcast.Native.Identity.{fingerprint}
use glacialcast.Pairing.Types.{
  PairRequest, PairOffer, ViewerConfirmation, PairDecisionReason, manual_verified,
  trusted_viewer_ca, open_policy, rejected, PublisherDecision,
}
use glacialcast.Pairing.Postcard.{PairingPostcard}
use glacialcast.Pairing.Request.{verify_request, request_id}
use glacialcast.Pairing.Offer.{verify_offer, transcript_hash, verify_confirmation}
use glacialcast.Pairing.Decision.{verify_decision}
use glacialcast.Relay.Statements.{find, update_one}
use glacialcast.PairingStore.Rows.{PairRow}
use glacialcast.PairingStore.Statements.{of_request, decode_pair}
use glacialcast.PairingStore.Store.{decided, check_limits}

module _ (ext : External) (post : PairingPostcard) where
  abbrev pub HoldsRequest : Bytes → PairRequest → Type 0
  HoldsRequest bytes r = decode_pair post.request_bytes post.take_request bytes ≡ ok r

  abbrev pub HoldsOffer : Bytes → PairOffer → Type 0
  HoldsOffer bytes o = decode_pair post.offer_bytes post.take_offer bytes ≡ ok o

  abbrev pub HoldsConfirmation : Bytes → ViewerConfirmation → Type 0
  HoldsConfirmation bytes c =
      decode_pair post.confirmation_bytes post.take_confirmation bytes ≡ ok c

  abbrev pub HoldsDecision : Bytes → PublisherDecision → Type 0
  HoldsDecision bytes d = decode_pair post.decision_bytes post.take_decision bytes ≡ ok d

  -- A row of a request that was just accepted.
  pub record Accepted (row : PairRow) : Type 0 where
    pub request : PairRequest
    pub lifetime : ℤ
    pub held : HoldsRequest row.request request
    pub verified : verify_request ext post request row.received_at_ms lifetime ≡ ok tt
    pub same_id : row.request_id ≡ request_id ext post request
    pub same_publisher : fingerprint ext request.body.publisher ≡ ok row.publisher_id
    pub same_viewer : fingerprint ext request.body.viewer ≡ ok row.viewer_id
    pub same_expiry : row.expires_at_ms ≡ request.body.expires_at_ms
    pub unanswered :
        (row.offer ≡ none)
        × (row.confirmation ≡ none)
        × (row.decision ≡ none)
        × (row.decided_at_ms ≡ none)

  abbrev pub OfferVerified : PairRequest → Bytes → Type 0
  OfferVerified r bytes =
      (o : PairOffer) × (now_ms : ℤ) × (lifetime : ℤ) × HoldsOffer bytes o
      × (verify_offer ext post o r now_ms lifetime ≡ ok tt)

  abbrev pub ConfirmationVerified : PairRequest → Bytes → Bytes → Type 0
  ConfirmationVerified r offer bytes =
      (o : PairOffer) × (c : ViewerConfirmation) × HoldsOffer offer o
      × HoldsConfirmation bytes c
      × (verify_confirmation ext post c r o ≡ ok tt)

  -- What a manual decision rests on: both messages are stored and give its transcript.
  abbrev pub CeremonyStored : PairRequest → Option Bytes → Option Bytes → ℕ → Type 0
  CeremonyStored r offer confirmation transcript =
      (offer_bytes : Bytes) × (confirmation_bytes : Bytes) × (o : PairOffer) × (offer
        ≡ some offer_bytes)
      × (confirmation ≡ some confirmation_bytes)
      × HoldsOffer offer_bytes o
      × (transcript_hash ext post r o ≡ ok transcript)

  abbrev pub Backed : PairRequest → Option Bytes → Option Bytes → ℕ → PairDecisionReason → Type 0
  Backed r offer confirmation transcript manual_verified =
      CeremonyStored r offer confirmation transcript
  Backed r offer confirmation transcript trusted_viewer_ca = Unit
  Backed r offer confirmation transcript open_policy = Unit
  Backed r offer confirmation transcript rejected = Unit

  abbrev pub DecisionVerified : PairRequest → Option Bytes → Option Bytes → Bytes → Type 0
  DecisionVerified r offer confirmation bytes =
      (d : PublisherDecision) × HoldsDecision bytes d
      × (verify_decision ext post d r r.body.publisher ≡ ok tt)
      × Backed r offer confirmation d.body.transcript_hash d.body.reason

  pub data Effect (rows after : List PairRow) : Type 0 where
    unchanged : after ≡ rows → Effect rows after
    inserts :
        (row : PairRow)
        → Accepted row
        → find (of_request row.request_id) rows ≡ none
        → check_limits rows row.publisher_id row.viewer_id row.source_addr row.received_at_ms
          ≡ ok tt
        → after ≡ row ∷ rows
        → Effect rows after
    offers :
        (id : ℕ) (row : PairRow) (r : PairRequest) (bytes : Bytes)
        → find (of_request id) rows ≡ some row
        → HoldsRequest row.request r
        → row.offer ≡ none
        → OfferVerified r bytes
        → after ≡ update_one (of_request id) (λ x. record x { offer = some bytes }) rows
        → Effect rows after
    confirms :
        (id : ℕ) (row : PairRow) (r : PairRequest) (offer bytes : Bytes)
        → find (of_request id) rows ≡ some row
        → HoldsRequest row.request r
        → row.offer ≡ some offer
        → row.confirmation ≡ none
        → ConfirmationVerified r offer bytes
        → after ≡ update_one (of_request id) (λ x. record x { confirmation = some bytes }) rows
        → Effect rows after
    decides :
        (id : ℕ) (row : PairRow) (r : PairRequest) (bytes : Bytes) (now_ms : ℤ)
        → find (of_request id) rows ≡ some row
        → HoldsRequest row.request r
        → row.decision ≡ none
        → DecisionVerified r row.offer row.confirmation bytes
        → after ≡ update_one (of_request id) (decided bytes now_ms) rows
        → Effect rows after
