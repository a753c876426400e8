-- ===== src/PairingStore/Inbox.antt =====
-- crates/relay/src/pairing_store.rs: the queries of publishers and viewers. A query commits its purge.
use glacialcast.Prelude.{
  ℕ, Bool, not, ◌&&◌, ◌||◌, Option, none, some, List, [], ◌∷◌, ◌++◌, take, ℤ, Result, ok, ◌>>=◌,
  ◌>>◌, ok_or, ltb, ◌==◌, ltb_ℤ, checked_sub_ℤ, is_some,
}
use glacialcast.Native.Types.{IdentityPublic}
use glacialcast.Native.External.{External}
use glacialcast.Native.Identity.{fingerprint}
use glacialcast.Pairing.Postcard.{PairingPostcard}
use glacialcast.Pairing.Checks.{from_identity}
use glacialcast.Pairing.Request.{verify_request}
use glacialcast.Relay.Statements.{select, order_by}
use glacialcast.PairingStore.Address.{parse_socket_addr}
use glacialcast.PairingStore.Rows.{
  PairingStoreError, invalid_lifetime, invalid_address, PairRow, PairRequestDelivery,
  PublisherPairingInbox, ViewerPairingInbox, max_inbox_records,
}
use glacialcast.PairingStore.Statements.{
  in_context, pending_for, purge, decode_pair, decode_optional,
}

-- `ORDER BY received_at_ms, request_id`.
abbrev pub received_before : PairRow → PairRow → Bool
received_before a b =
    ltb_ℤ a.received_at_ms b.received_at_ms
    || (not (ltb_ℤ b.received_at_ms a.received_at_ms) && ltb a.request_id b.request_id)

abbrev pub is_answered : ℕ → PairRow → Bool
is_answered viewer_id row =
    row.viewer_id == viewer_id && (is_some row.offer || is_some row.decision)

abbrev pub pushed {ℓ} : {A : Type ℓ} → List A → Option A → List A
pushed xs none = xs
pushed xs (some x) = xs ++ x ∷ []

module _ (ext : External) (post : PairingPostcard) where
  unfoldable pub deliver_request : ℤ → PairRow → Result PairingStoreError PairRequestDelivery
  unfolding decode_pair parse_socket_addr
  deliver_request now_ms row = do
    request ← decode_pair post.request_bytes post.take_request row.request
    lifetime ←
        ok_or (checked_sub_ℤ request.body.expires_at_ms request.body.issued_at_ms) invalid_lifetime
    in_context (verify_request ext post request now_ms lifetime)
    source_addr ← ok_or (parse_socket_addr row.source_addr) invalid_address
    ok (record {
      request = request;
      source_addr = source_addr;
      received_at_ms = row.received_at_ms;
    })

  -- The loop of `publisher_inbox`, with the inbox so far.
  unfoldable pub fill_publisher :
      ℤ → PublisherPairingInbox → List PairRow → Result PairingStoreError PublisherPairingInbox
  unfolding deliver_request
  fill_publisher now_ms inbox [] = ok inbox
  fill_publisher now_ms inbox (row ∷ rows) = do
    delivery ← deliver_request now_ms row
    confirmation ← decode_optional post.confirmation_bytes post.take_confirmation row.confirmation
    fill_publisher now_ms
        (record {
          requests = inbox.requests ++ delivery ∷ [];
          confirmations = pushed inbox.confirmations confirmation;
        })
        rows

  unfoldable pub publisher_inbox :
      List PairRow
      → IdentityPublic
      → ℤ
      → Result PairingStoreError (List PairRow × PublisherPairingInbox)
  unfolding purge select order_by fill_publisher
  publisher_inbox rows publisher now_ms = do
    publisher_id ← in_context (from_identity (fingerprint ext publisher))
    inbox ←
        fill_publisher now_ms (record { requests = []; confirmations = [] })
          (take max_inbox_records
            (order_by received_before (select (pending_for publisher_id) (purge rows now_ms))))
    ok (purge rows now_ms, inbox)

  -- The loop of `viewer_inbox`.
  unfoldable pub fill_viewer :
      ViewerPairingInbox → List PairRow → Result PairingStoreError ViewerPairingInbox
  fill_viewer inbox [] = ok inbox
  fill_viewer inbox (row ∷ rows) = do
    offer ← decode_optional post.offer_bytes post.take_offer row.offer
    decision ← decode_optional post.decision_bytes post.take_decision row.decision
    fill_viewer
        (record { offers = pushed inbox.offers offer; decisions = pushed inbox.decisions decision })
        rows

  unfoldable pub viewer_inbox :
      List PairRow
      → IdentityPublic
      → ℤ
      → Result PairingStoreError (List PairRow × ViewerPairingInbox)
  unfolding purge select order_by fill_viewer
  viewer_inbox rows viewer now_ms = do
    viewer_id ← in_context (from_identity (fingerprint ext viewer))
    inbox ←
        fill_viewer (record { offers = []; decisions = [] })
          (take max_inbox_records
            (order_by received_before (select (is_answered viewer_id) (purge rows now_ms))))
    ok (purge rows now_ms, inbox)
