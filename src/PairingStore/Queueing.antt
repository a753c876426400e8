-- ===== src/PairingStore/Queueing.antt =====
-- crates/relay/src/pairing_store.rs: the transactions on requests, offers and confirmations as effects on the
-- rows.
use glacialcast.Prelude.{
  ℕ, ◌≡◌, refl, sym, ap, ◌∙◌, subst, Bool, not, Option, none, some, some-injective, List, ◌∷◌,
  Bytes, ℤ, ok, fail_if, ok_or, >>=-eq-ok, ok-injective, inl, inr, Option-cases, ◌⊎◌, same_bytes,
  arith,
}
use glacialcast.Native.External.{External}
use glacialcast.Native.Identity.{fingerprint}
use glacialcast.Native.Canonical.{parse_whole}
use glacialcast.Native.Inversions.{ok_or_inv}
use glacialcast.Pairing.Types.{PairRequest, PairOffer, ViewerConfirmation}
use glacialcast.Pairing.Postcard.{PairingPostcard, PairingPostcardLaws}
use glacialcast.Pairing.Checks.{from_identity}
use glacialcast.Pairing.Request.{verify_request, request_id}
use glacialcast.Pairing.Offer.{verify_offer, verify_confirmation}
use glacialcast.Pairing.Signed.{from_identity_inv}
use glacialcast.Relay.Statements.{find, update_one}
use glacialcast.PairingStore.Rows.{not_pending, no_offer, conflicting_request, PairRow}
use glacialcast.PairingStore.Statements.{
  in_context, of_request, purge, insert_request, encode_pair, request_by_id, offer_by_id,
  store_once, write_once,
}
use glacialcast.PairingStore.Store.{
  new_row, decided, check_limits, insert_within_limits, enqueue_row, decide_once, enqueue_request,
  store_offer, store_confirmation,
}
use glacialcast.PairingStore.Lookups.{
  in_context_inv, decode-encode_pair, request_found, offer_found,
}
use glacialcast.PairingStore.Effects.{Accepted, Effect, unchanged, inserts, offers, confirms}

-- What `store_once` did for a row that is there.
pub store_once_inv :
    (column : PairRow → Option Bytes) (update : PairRow → PairRow) (rows : List PairRow) (id : ℕ)
    (row : PairRow) (after : List PairRow) (changed : Bool)
    → find (of_request id) rows ≡ some row
    → store_once column update rows id ≡ ok (after, changed)
    → (after ≡ rows) ⊎ ((column row ≡ none) × (after ≡ update_one (of_request id) update rows))
unfolding store_once
store_once_inv column update rows id row after changed found h = elim (Option-cases (column row)) [
  | inl empty ↦ inr (empty, ap (λ p. p.0) (sym (ok-injective (rw (found, write_once, empty) at h))))
  | inr (bytes, full) ↦ inl (ap (λ p. p.0) (sym (ok-injective (rw (found, write_once, full) at h))))
]

pub decide_once_inv :
    (rows : List PairRow) (id : ℕ) (encoded : Bytes) (now_ms : ℤ) (row : PairRow)
    → find (of_request id) rows ≡ some row
    → ((decide_once rows id encoded now_ms).0 ≡ rows)
      ⊎ ((row.decision ≡ none)
          × ((decide_once rows id encoded now_ms).0
              ≡ update_one (of_request id) (decided encoded now_ms) rows))
unfolding decide_once
decide_once_inv rows id encoded now_ms row found = elim (Option-cases row.decision) [
  | inl empty ↦ inr (empty, rw (found, empty))
  | inr (bytes, full) ↦ inl (rw (found, full))
]

pub insert_request_inv :
    (rows : List PairRow) (row : PairRow) (inserted : List PairRow)
    → insert_request rows row ≡ ok inserted
    → inserted ≡ row ∷ rows
unfolding insert_request
insert_request_inv rows row inserted h = ground arith

module _ (ext : External) (post : PairingPostcard) (laws : PairingPostcardLaws post) where
  pub enqueue_row-Effect :
      (rows : List PairRow) (row : PairRow) (found : Option PairRow) (after : List PairRow)
      (changed : Bool)
      → Accepted ext post row
      → find (of_request row.request_id) rows ≡ found
      → enqueue_row rows row row.received_at_ms found ≡ ok (after, changed)
      → Effect ext post rows after
  unfolding enqueue_row insert_within_limits insert_request
  enqueue_row-Effect rows row none after changed accepted absent h =
      let (u1, e1, k1) =
        >>=-eq-ok
          (check_limits rows row.publisher_id row.viewer_id row.source_addr row.received_at_ms) _
          h in
      let (inserted, e2, k2) = >>=-eq-ok (insert_request rows row) _ k1 in
      inserts row accepted absent e1
        (ap (λ p. p.0) (sym (ok-injective k2)) ∙ insert_request_inv rows row inserted e2)
  enqueue_row-Effect rows row (some existing) after changed accepted there h =
      let (u1, e1, k1) =
        >>=-eq-ok (fail_if (not (same_bytes existing.request row.request)) conflicting_request) _
          h in
      unchanged (ap (λ p. p.0) (sym (ok-injective k1)))

  pub enqueue_request-Effect :
      (rows : List PairRow) (r : PairRequest) (source : List ℕ) (now_ms lifetime : ℤ)
      (after : List PairRow) (changed : Bool)
      → enqueue_request ext post rows r source now_ms lifetime ≡ ok (after, changed)
      → Effect ext post (purge rows now_ms) after
  unfolding enqueue_request
  enqueue_request-Effect rows r source now_ms lifetime after changed h =
      let (u1, e1, k1) = >>=-eq-ok (in_context (verify_request ext post r now_ms lifetime)) _ h in
      let (encoded, e2, k2) = >>=-eq-ok (encode_pair post.request_bytes post.take_request r) _ k1 in
      let (publisher, e3, k3) =
        >>=-eq-ok (in_context (from_identity (fingerprint ext r.body.publisher))) _ k2 in
      let (viewer, e4, k4) =
        >>=-eq-ok (in_context (from_identity (fingerprint ext r.body.viewer))) _ k3 in
      let row : PairRow =
        new_row (request_id ext post r) publisher viewer source now_ms r.body.expires_at_ms
          encoded in
      enqueue_row-Effect (purge rows now_ms) row
        (find (of_request (request_id ext post r)) (purge rows now_ms)) after changed
        (record {
          request = r;
          lifetime = lifetime;
          held =
              decode-encode_pair post.request_bytes post.take_request r encoded
                (parse_whole post.take_request (post.request_bytes r) r (laws.take-request r)) e2;
          verified = in_context_inv (verify_request ext post r now_ms lifetime) e1;
          same_id = refl;
          same_publisher =
              from_identity_inv (fingerprint ext r.body.publisher)
                (in_context_inv (from_identity (fingerprint ext r.body.publisher)) e3);
          same_viewer =
              from_identity_inv (fingerprint ext r.body.viewer)
                (in_context_inv (from_identity (fingerprint ext r.body.viewer)) e4);
          same_expiry = refl;
          unanswered = (refl, refl, refl, refl);
        })
        refl k4

  pub store_offer-Effect :
      (rows : List PairRow) (o : PairOffer) (now_ms lifetime : ℤ) (after : List PairRow)
      (changed : Bool)
      → store_offer ext post rows o now_ms lifetime ≡ ok (after, changed)
      → Effect ext post (purge rows now_ms) after
  unfolding store_offer
  store_offer-Effect rows o now_ms lifetime after changed h =
      let id = o.body.request_id in
      let (queued, e1, k1) =
        >>=-eq-ok (request_by_id post (purge rows now_ms) o.body.request_id) _ h in
      let (r, e2, k2) = >>=-eq-ok (ok_or queued not_pending) _ k1 in
      let (u3, e3, k3) = >>=-eq-ok (in_context (verify_offer ext post o r now_ms lifetime)) _ k2 in
      let (encoded, e4, k4) = >>=-eq-ok (encode_pair post.offer_bytes post.take_offer o) _ k3 in
      let (row, found, held) =
        request_found post (purge rows now_ms) o.body.request_id r
          (e1 ∙ ap (λ x. ok x) (ok_or_inv queued not_pending e2)) in
      elim (store_once_inv (λ x. x.offer) (λ x. record x { offer = some encoded })
        (purge rows now_ms) o.body.request_id row after changed found k4) [
          | inl same ↦ unchanged same
          | inr (empty, new) ↦
              offers o.body.request_id row r encoded found held empty
                (
                  o,
                  now_ms,
                  lifetime,
                  decode-encode_pair post.offer_bytes post.take_offer o encoded
                      (parse_whole post.take_offer (post.offer_bytes o) o (laws.take-offer o)) e4,
                  in_context_inv (verify_offer ext post o r now_ms lifetime) e3,
                )
                new
        ]

  pub store_confirmation-Effect :
      (rows : List PairRow) (c : ViewerConfirmation) (now_ms : ℤ) (after : List PairRow)
      (changed : Bool)
      → store_confirmation ext post rows c now_ms ≡ ok (after, changed)
      → Effect ext post (purge rows now_ms) after
  unfolding store_confirmation
  store_confirmation-Effect rows c now_ms after changed h =
      let (queued, e1, k1) =
        >>=-eq-ok (request_by_id post (purge rows now_ms) c.body.request_id) _ h in
      let (r, e2, k2) = >>=-eq-ok (ok_or queued not_pending) _ k1 in
      let (offered, e3, k3) =
        >>=-eq-ok (offer_by_id post (purge rows now_ms) c.body.request_id) _ k2 in
      let (o, e4, k4) = >>=-eq-ok (ok_or offered no_offer) _ k3 in
      let (u5, e5, k5) = >>=-eq-ok (in_context (verify_confirmation ext post c r o)) _ k4 in
      let (encoded, e6, k6) =
        >>=-eq-ok (encode_pair post.confirmation_bytes post.take_confirmation c) _ k5 in
      let (row, found, held) =
        request_found post (purge rows now_ms) c.body.request_id r
          (e1 ∙ ap (λ x. ok x) (ok_or_inv queued not_pending e2)) in
      let (other, bytes, again, there, offer) =
        offer_found post (purge rows now_ms) c.body.request_id o
          (e3 ∙ ap (λ x. ok x) (ok_or_inv offered no_offer e4)) in
      let same : other ≡ row = some-injective other row (sym again ∙ found) in
      elim (store_once_inv (λ x. x.confirmation) (λ x. record x { confirmation = some encoded })
        (purge rows now_ms) c.body.request_id row after changed found k6) [
          | inl kept ↦ unchanged kept
          | inr (empty, new) ↦
              confirms c.body.request_id row r bytes encoded found held
                (subst (λ (x : PairRow). x.offer ≡ some bytes) same there) empty
                (
                  o,
                  c,
                  offer,
                  decode-encode_pair post.confirmation_bytes post.take_confirmation c encoded
                      (parse_whole post.take_confirmation (post.confirmation_bytes c) c
                        (laws.take-confirmation c))
                      e6,
                  in_context_inv (verify_confirmation ext post c r o) e5,
                )
                new
        ]
