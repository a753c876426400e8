-- ===== src/PairingStore/Ceremonies.antt =====
-- crates/relay/src/pairing_store.rs: a row as a ceremony whose messages verify, and the steps that a row makes.
use glacialcast.Prelude.{ℕ, ◌≡◌, sym, ◌∙◌, subst, Option, none, some, Bytes, ℤ, ok, ok-injective}
use glacialcast.Native.External.{External}
use glacialcast.Native.Identity.{fingerprint}
use glacialcast.Pairing.Types.{
  PairRequest, PairDecisionReason, manual_verified, trusted_viewer_ca, open_policy, rejected,
}
use glacialcast.Pairing.Postcard.{PairingPostcard}
use glacialcast.Pairing.Request.{verify_request, request_id}
use glacialcast.PairingStore.Rows.{PairRow}
use glacialcast.PairingStore.Store.{decided}
use glacialcast.PairingStore.Effects.{
  HoldsRequest, Accepted, OfferVerified, ConfirmationVerified, CeremonyStored, Backed,
  DecisionVerified,
}

module _ (ext : External) (post : PairingPostcard) where
  abbrev pub OfferOf : PairRequest → Option Bytes → Type 0
  OfferOf r none = Unit
  OfferOf r (some bytes) = OfferVerified ext post r bytes

  -- A confirmation stands only beside the offer that it confirms.
  abbrev pub ConfirmationOf : PairRequest → Option Bytes → Option Bytes → Type 0
  ConfirmationOf r offer none = Unit
  ConfirmationOf r none (some bytes) = ⊥
  ConfirmationOf r (some offer) (some bytes) = ConfirmationVerified ext post r offer bytes

  abbrev pub DecisionOf : PairRequest → Option Bytes → Option Bytes → Option Bytes → Type 0
  DecisionOf r offer confirmation none = Unit
  DecisionOf r offer confirmation (some bytes) =
      DecisionVerified ext post r offer confirmation bytes

  pub record Ceremony (row : PairRow) : Type 0 where
    pub request : PairRequest
    pub lifetime : ℤ
    pub held : HoldsRequest ext post row.request request
    pub verified : verify_request ext post request row.received_at_ms lifetime ≡ ok tt
    pub same_id : row.request_id ≡ request_id ext post request
    pub same_publisher : fingerprint ext request.body.publisher ≡ ok row.publisher_id
    pub same_viewer : fingerprint ext request.body.viewer ≡ ok row.viewer_id
    pub same_expiry : row.expires_at_ms ≡ request.body.expires_at_ms
    pub offered : OfferOf request row.offer
    pub confirmed : ConfirmationOf request row.offer row.confirmation
    pub decision : DecisionOf request row.offer row.confirmation row.decision

  pub Accepted-Ceremony : (row : PairRow) → Accepted ext post row → Ceremony row
  Accepted-Ceremony row a =
      let (no_offer, no_confirmation, no_decision, undated) = a.unanswered in
      record {
        request = a.request;
        lifetime = a.lifetime;
        held = a.held;
        verified = a.verified;
        same_id = a.same_id;
        same_publisher = a.same_publisher;
        same_viewer = a.same_viewer;
        same_expiry = a.same_expiry;
        offered = subst (OfferOf a.request) (sym no_offer) tt;
        confirmed = subst (ConfirmationOf a.request row.offer) (sym no_confirmation) tt;
        decision = subst (DecisionOf a.request row.offer row.confirmation) (sym no_decision) tt;
      }

  pub Backed-later :
      (r : PairRequest) (offer confirmation offer' confirmation' : Option Bytes) (transcript : ℕ)
      (reason : PairDecisionReason)
      → (CeremonyStored ext post r offer confirmation transcript
          → CeremonyStored ext post r offer' confirmation' transcript)
      → Backed ext post r offer confirmation transcript reason
      → Backed ext post r offer' confirmation' transcript reason
  Backed-later r offer confirmation offer' confirmation' transcript manual_verified later b =
      later b
  Backed-later r offer confirmation offer' confirmation' transcript trusted_viewer_ca later b = tt
  Backed-later r offer confirmation offer' confirmation' transcript open_policy later b = tt
  Backed-later r offer confirmation offer' confirmation' transcript rejected later b = tt

  pub decision_later :
      (r : PairRequest) (offer confirmation offer' confirmation' : Option Bytes)
      (decision : Option Bytes)
      → ((transcript : ℕ)
          → CeremonyStored ext post r offer confirmation transcript
          → CeremonyStored ext post r offer' confirmation' transcript)
      → DecisionOf r offer confirmation decision
      → DecisionOf r offer' confirmation' decision
  decision_later r offer confirmation offer' confirmation' none later d = tt
  decision_later r offer confirmation offer' confirmation' (some bytes) later
        (d, held, verified, b) =
      (
        d,
        held,
        verified,
        Backed-later r offer confirmation offer' confirmation' d.body.transcript_hash d.body.reason
            (later d.body.transcript_hash) b,
      )

  -- The first offer: nothing rests on it yet.
  pub confirmation_unoffered :
      (r : PairRequest) (offer confirmation : Option Bytes) (bytes : Bytes)
      → offer ≡ none
      → ConfirmationOf r offer confirmation
      → ConfirmationOf r (some bytes) confirmation
  confirmation_unoffered r offer none bytes empty c = tt
  confirmation_unoffered r none (some b) bytes empty c = absurd c
  confirmation_unoffered r (some o) (some b) bytes empty c = absurd (cc empty)

  pub nothing_stored : {bytes : Bytes} (o : Option Bytes) → o ≡ none → o ≡ some bytes → ⊥
  nothing_stored o p q = cc

  pub offers-Ceremony :
      (row : PairRow) (r : PairRequest) (bytes : Bytes)
      → Ceremony row
      → HoldsRequest ext post row.request r
      → row.offer ≡ none
      → OfferVerified ext post r bytes
      → Ceremony (record row { offer = some bytes })
  offers-Ceremony row r bytes w held empty verified = record {
    request = w.request;
    lifetime = w.lifetime;
    held = w.held;
    verified = w.verified;
    same_id = w.same_id;
    same_publisher = w.same_publisher;
    same_viewer = w.same_viewer;
    same_expiry = w.same_expiry;
    offered =
        subst (λ q. OfferVerified ext post q bytes) (ok-injective (sym held ∙ w.held)) verified;
    confirmed = confirmation_unoffered w.request row.offer row.confirmation bytes empty w.confirmed;
    decision =
        decision_later w.request row.offer row.confirmation (some bytes) row.confirmation
          row.decision (λ t s. absurd (nothing_stored row.offer empty s.3)) w.decision;
  }

  pub confirms-Ceremony :
      (row : PairRow) (r : PairRequest) (offer bytes : Bytes)
      → Ceremony row
      → HoldsRequest ext post row.request r
      → row.offer ≡ some offer
      → row.confirmation ≡ none
      → ConfirmationVerified ext post r offer bytes
      → Ceremony (record row { confirmation = some bytes })
  confirms-Ceremony row r offer bytes w held there empty verified = record {
    request = w.request;
    lifetime = w.lifetime;
    held = w.held;
    verified = w.verified;
    same_id = w.same_id;
    same_publisher = w.same_publisher;
    same_viewer = w.same_viewer;
    same_expiry = w.same_expiry;
    offered = w.offered;
    confirmed =
        subst (λ o. ConfirmationOf w.request o (some bytes)) (sym there)
          (subst (λ q. ConfirmationVerified ext post q offer bytes)
            (ok-injective (sym held ∙ w.held)) verified);
    decision =
        decision_later w.request row.offer row.confirmation row.offer (some bytes) row.decision
          (λ t s. absurd (nothing_stored row.confirmation empty s.4)) w.decision;
  }

  pub decides-Ceremony :
      (row : PairRow) (r : PairRequest) (bytes : Bytes) (now_ms : ℤ)
      → Ceremony row
      → HoldsRequest ext post row.request r
      → DecisionVerified ext post r row.offer row.confirmation bytes
      → Ceremony (decided bytes now_ms row)
  decides-Ceremony row r bytes now_ms w held verified = record {
    request = w.request;
    lifetime = w.lifetime;
    held = w.held;
    verified = w.verified;
    same_id = w.same_id;
    same_publisher = w.same_publisher;
    same_viewer = w.same_viewer;
    same_expiry = w.same_expiry;
    offered = w.offered;
    confirmed = w.confirmed;
    decision =
        subst (λ q. DecisionVerified ext post q row.offer row.confirmation bytes)
          (ok-injective (sym held ∙ w.held)) verified;
  }
