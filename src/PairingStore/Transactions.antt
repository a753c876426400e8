-- ===== src/PairingStore/Transactions.antt =====
-- crates/relay/src/pairing_store.rs: the checks of a decision, and decisions as effects on the rows.
use glacialcast.Prelude.{
  ℕ, ◌≡◌, sym, ap, ◌∙◌, subst, Bool, false, not, some, some-injective, List, ℤ, ok, ok_or,
  >>=-eq-ok, ok-injective, inl, inr, ◌==◌, if◌then◌else◌, arith,
}
use glacialcast.Native.External.{External}
use glacialcast.Native.Canonical.{parse_whole}
use glacialcast.Native.Inversions.{not_refused, ok_or_inv}
use glacialcast.Pairing.Types.{
  PairRequest, PairDecisionReason, manual_verified, trusted_viewer_ca, open_policy, rejected,
  PublisherDecision,
}
use glacialcast.Pairing.Postcard.{PairingPostcard, PairingPostcardLaws}
use glacialcast.Pairing.Offer.{transcript_hash, verify_confirmation}
use glacialcast.Pairing.Decision.{verify_decision}
use glacialcast.Relay.Statements.{find}
use glacialcast.PairingStore.Rows.{
  not_pending, no_offer, no_confirmation, transcript_differs, PairRow,
}
use glacialcast.PairingStore.Statements.{
  in_context, of_request, purge, encode_pair, request_by_id, offer_by_id, confirmation_by_id,
}
use glacialcast.PairingStore.Store.{is_manual, check_ceremony, store_decision}
use glacialcast.PairingStore.Lookups.{
  in_context_inv, decode-encode_pair, request_found, offer_found, confirmation_found,
}
use glacialcast.PairingStore.Effects.{CeremonyStored, Backed, Effect, unchanged, decides}
use glacialcast.PairingStore.Queueing.{decide_once_inv}

module _ (ext : External) (post : PairingPostcard) (laws : PairingPostcardLaws post) where
  check_ceremony-CeremonyStored :
      (rows : List PairRow) (d : PublisherDecision) (r : PairRequest) (row : PairRow)
      → find (of_request d.body.request_id) rows ≡ some row
      → check_ceremony ext post rows d r ≡ ok tt
      → CeremonyStored ext post r row.offer row.confirmation d.body.transcript_hash
  unfolding check_ceremony
  check_ceremony-CeremonyStored rows d r row found h =
      let (offered, e1, k1) = >>=-eq-ok (offer_by_id post rows d.body.request_id) _ h in
      let (o, e2, k2) = >>=-eq-ok (ok_or offered no_offer) _ k1 in
      let (confirmed, e3, k3) = >>=-eq-ok (confirmation_by_id post rows d.body.request_id) _ k2 in
      let (c, e4, k4) = >>=-eq-ok (ok_or confirmed no_confirmation) _ k3 in
      let (u5, e5, k5) = >>=-eq-ok (in_context (verify_confirmation ext post c r o)) _ k4 in
      let (transcript, e6, k6) = >>=-eq-ok (in_context (transcript_hash ext post r o)) _ k5 in
      let (first, bytes, found_first, there, offer) =
        offer_found post rows d.body.request_id o
          (e1 ∙ ap (λ x. ok x) (ok_or_inv offered no_offer e2)) in
      let (second, more, found_second, present, confirmation) =
        confirmation_found post rows d.body.request_id c
          (e3 ∙ ap (λ x. ok x) (ok_or_inv confirmed no_confirmation e4)) in
      (
        bytes,
        more,
        o,
        subst (λ (x : PairRow). x.offer ≡ some bytes)
            (some-injective first row (sym found_first ∙ found)) there,
        subst (λ (x : PairRow). x.confirmation ≡ some more)
            (some-injective second row (sym found_second ∙ found)) present,
        offer,
        subst (λ (n : ℕ). transcript_hash ext post r o ≡ ok n)
            (sym (matched d.body.transcript_hash transcript (not_refused _ transcript_differs k6)))
            (in_context_inv (transcript_hash ext post r o) e6),
      )
    where
      matched : (m n : ℕ) → not (m == n) ≡ false → m ≡ n
      matched m n h = ground arith

  backed :
      (reason : PairDecisionReason) (rows : List PairRow) (d : PublisherDecision) (r : PairRequest)
      (row : PairRow)
      → find (of_request d.body.request_id) rows ≡ some row
      → (if is_manual reason then check_ceremony ext post rows d r else ok tt) ≡ ok tt
      → Backed ext post r row.offer row.confirmation d.body.transcript_hash reason
  backed manual_verified rows d r row found h = check_ceremony-CeremonyStored rows d r row found h
  backed trusted_viewer_ca rows d r row found h = tt
  backed open_policy rows d r row found h = tt
  backed rejected rows d r row found h = tt

  pub store_decision-Effect :
      (rows : List PairRow) (d : PublisherDecision) (now_ms : ℤ) (after : List PairRow)
      (changed : Bool)
      → store_decision ext post rows d now_ms ≡ ok (after, changed)
      → Effect ext post (purge rows now_ms) after
  unfolding store_decision
  store_decision-Effect rows d now_ms after changed h =
      let (queued, e1, k1) =
        >>=-eq-ok (request_by_id post (purge rows now_ms) d.body.request_id) _ h in
      let (r, e2, k2) = >>=-eq-ok (ok_or queued not_pending) _ k1 in
      let (u3, e3, k3) =
        >>=-eq-ok (in_context (verify_decision ext post d r r.body.publisher)) _ k2 in
      let (u4, e4, k4) =
        >>=-eq-ok
          (if is_manual d.body.reason
            then check_ceremony ext post (purge rows now_ms) d r
            else ok tt)
          _ k3 in
      let (encoded, e5, k5) =
        >>=-eq-ok (encode_pair post.decision_bytes post.take_decision d) _ k4 in
      let (row, found, held) =
        request_found post (purge rows now_ms) d.body.request_id r
          (e1 ∙ ap (λ x. ok x) (ok_or_inv queued not_pending e2)) in
      let result = ap (λ p. p.0) (sym (ok-injective k5)) in
      elim (decide_once_inv (purge rows now_ms) d.body.request_id encoded now_ms row found) [
        | inl kept ↦ unchanged (result ∙ kept)
        | inr (empty, new) ↦
            decides d.body.request_id row r encoded now_ms found held empty
              (
                d,
                decode-encode_pair post.decision_bytes post.take_decision d encoded
                    (parse_whole post.take_decision (post.decision_bytes d) d
                      (laws.take-decision d))
                    e5,
                in_context_inv (verify_decision ext post d r r.body.publisher) e3,
                backed d.body.reason (purge rows now_ms) d r row found e4,
              )
              (result ∙ new)
      ]
