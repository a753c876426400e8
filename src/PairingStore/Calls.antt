-- ===== src/PairingStore/Calls.antt =====
-- crates/relay/src/pairing_store.rs: histories of calls of the `PairingStore`. The mutex and the immediate
-- transactions make the calls follow one another.
use glacialcast.Prelude.{
  ℕ, ◌≡◌, refl, ◌⊎◌, inl, inr, List, [], ◌∷◌, ℤ, Result, ok, err, ap, sym, take, >>=-eq-ok,
  ok-injective,
}
use glacialcast.Native.Types.{IdentityPublic}
use glacialcast.Native.External.{External}
use glacialcast.Native.Identity.{fingerprint}
use glacialcast.Pairing.Checks.{from_identity}
use glacialcast.Relay.Statements.{select, order_by}
use glacialcast.Pairing.Types.{PairRequest, PairOffer, ViewerConfirmation, PublisherDecision}
use glacialcast.Pairing.Postcard.{PairingPostcard, PairingPostcardLaws}
use glacialcast.PairingStore.Rows.{
  PairingStoreError, PairRow, PublisherPairingInbox, ViewerPairingInbox, max_inbox_records,
}
use glacialcast.PairingStore.Statements.{purge, in_context, pending_for}
use glacialcast.PairingStore.Store.{
  enqueue_request, store_offer, store_confirmation, store_decision,
}
use glacialcast.PairingStore.Inbox.{
  publisher_inbox, viewer_inbox, fill_publisher, fill_viewer, received_before, is_answered,
}
use glacialcast.PairingStore.Effects.{Effect, unchanged}
use glacialcast.PairingStore.Queueing.{
  enqueue_request-Effect, store_offer-Effect, store_confirmation-Effect,
}
use glacialcast.PairingStore.Transactions.{store_decision-Effect}

-- A call with its time.
pub data Call : Type 0 where
  enqueue : PairRequest → List ℕ → ℤ → ℤ → Call
  offer : PairOffer → ℤ → ℤ → Call
  confirm : ViewerConfirmation → ℤ → Call
  decide : PublisherDecision → ℤ → Call
  list_publisher : IdentityPublic → ℤ → Call
  list_viewer : IdentityPublic → ℤ → Call

abbrev pub time_of : Call → ℤ
time_of (enqueue r source now_ms lifetime) = now_ms
time_of (offer o now_ms lifetime) = now_ms
time_of (confirm c now_ms) = now_ms
time_of (decide d now_ms) = now_ms
time_of (list_publisher p now_ms) = now_ms
time_of (list_viewer v now_ms) = now_ms

-- The rows after a transaction; one that fails is rolled back.
abbrev pub committed :
    {A : Type 0} → List PairRow → Result PairingStoreError (List PairRow × A) → List PairRow
committed rows (ok (after, answer)) = after
committed rows (err e) = rows

module _ (ext : External) (post : PairingPostcard) where
  unfoldable pub call : List PairRow → Call → List PairRow
  call rows (enqueue r source now_ms lifetime) =
      committed rows (enqueue_request ext post rows r source now_ms lifetime)
  call rows (offer o now_ms lifetime) = committed rows (store_offer ext post rows o now_ms lifetime)
  call rows (confirm c now_ms) = committed rows (store_confirmation ext post rows c now_ms)
  call rows (decide d now_ms) = committed rows (store_decision ext post rows d now_ms)
  call rows (list_publisher p now_ms) = committed rows (publisher_inbox ext post rows p now_ms)
  call rows (list_viewer v now_ms) = committed rows (viewer_inbox ext post rows v now_ms)

  unfoldable pub calls : List PairRow → List Call → List PairRow
  unfolding call
  calls rows [] = rows
  calls rows (c ∷ cs) = calls (call rows c) cs

  -- A call fails and changes nothing, or purges and has an effect.
  abbrev pub Outcome : List PairRow → Call → List PairRow → Type 0
  Outcome rows c after = (after ≡ rows) ⊎ Effect ext post (purge rows (time_of c)) after

  Outcome-branch :
      {A : Type 0} (rows : List PairRow) (c : Call)
      (m : Result PairingStoreError (List PairRow × A))
      → ((after : List PairRow) (answer : A)
          → m ≡ ok (after, answer)
          → Effect ext post (purge rows (time_of c)) after)
      → Outcome rows c (committed rows m)
  Outcome-branch rows c (ok (after, answer)) effect = inr (effect after answer refl)
  Outcome-branch rows c (err e) effect = inl refl

  publisher_inbox-Effect :
      (rows : List PairRow) (p : IdentityPublic) (now_ms : ℤ) (after : List PairRow)
      (inbox : PublisherPairingInbox)
      → publisher_inbox ext post rows p now_ms ≡ ok (after, inbox)
      → Effect ext post (purge rows now_ms) after
  unfolding publisher_inbox
  publisher_inbox-Effect rows p now_ms after inbox h =
      let (id, e1, k1) = >>=-eq-ok (in_context (from_identity (fingerprint ext p))) _ h in
      let (filled, e2, k2) =
        >>=-eq-ok
          (fill_publisher ext post now_ms (record { requests = []; confirmations = [] })
            (take max_inbox_records
              (order_by received_before (select (pending_for id) (purge rows now_ms)))))
          _ k1 in
      unchanged (ap (λ x. x.0) (sym (ok-injective k2)))

  viewer_inbox-Effect :
      (rows : List PairRow) (p : IdentityPublic) (now_ms : ℤ) (after : List PairRow)
      (inbox : ViewerPairingInbox)
      → viewer_inbox ext post rows p now_ms ≡ ok (after, inbox)
      → Effect ext post (purge rows now_ms) after
  unfolding viewer_inbox
  viewer_inbox-Effect rows p now_ms after inbox h =
      let (id, e1, k1) = >>=-eq-ok (in_context (from_identity (fingerprint ext p))) _ h in
      let (filled, e2, k2) =
        >>=-eq-ok
          (fill_viewer ext post (record { offers = []; decisions = [] })
            (take max_inbox_records
              (order_by received_before (select (is_answered id) (purge rows now_ms)))))
          _ k1 in
      unchanged (ap (λ x. x.0) (sym (ok-injective k2)))

  module _ (laws : PairingPostcardLaws post) where
    pub call-Outcome : (rows : List PairRow) (c : Call) → Outcome rows c (call rows c)
    unfolding call
    call-Outcome rows (enqueue r source now_ms lifetime) =
        Outcome-branch rows (enqueue r source now_ms lifetime)
          (enqueue_request ext post rows r source now_ms lifetime)
          (enqueue_request-Effect ext post laws rows r source now_ms lifetime)
    call-Outcome rows (offer o now_ms lifetime) =
        Outcome-branch rows (offer o now_ms lifetime) (store_offer ext post rows o now_ms lifetime)
          (store_offer-Effect ext post laws rows o now_ms lifetime)
    call-Outcome rows (confirm c now_ms) =
        Outcome-branch rows (confirm c now_ms) (store_confirmation ext post rows c now_ms)
          (store_confirmation-Effect ext post laws rows c now_ms)
    call-Outcome rows (decide d now_ms) =
        Outcome-branch rows (decide d now_ms) (store_decision ext post rows d now_ms)
          (store_decision-Effect ext post laws rows d now_ms)
    call-Outcome rows (list_publisher p now_ms) =
        Outcome-branch rows (list_publisher p now_ms) (publisher_inbox ext post rows p now_ms)
          (publisher_inbox-Effect rows p now_ms)
    call-Outcome rows (list_viewer v now_ms) =
        Outcome-branch rows (list_viewer v now_ms) (viewer_inbox ext post rows v now_ms)
          (viewer_inbox-Effect rows v now_ms)
