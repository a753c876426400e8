-- ===== src/PairingStore/Delivery.antt =====
-- crates/relay/src/pairing_store.rs: what `publisher_inbox` delivers.
use mathlib.Core.List.{Perm}
use glacialcast.Prelude.{
  ℕ, ◌≤◌, ◌≡◌, refl, true, false, Option, none, some, List, [], ◌∷◌, ◌++◌, append_assoc, append-nil,
  length, All, All-imp, ℤ, Bytes, ok, arith, ◌⊎◌, inl, inr, ◌≤ℤ◌, leb_ℤ,
}
use glacialcast.Native.Types.{IdentityPublic}
use glacialcast.Native.External.{External}
use glacialcast.Native.Identity.{fingerprint}
use glacialcast.Pairing.Types.{PairRequest, ViewerConfirmation}
use glacialcast.Pairing.Postcard.{PairingPostcard}
use glacialcast.Relay.Statements.{delete_where, select, order_by}
use glacialcast.PairingStore.Address.{SocketAddr, parse_socket_addr}
use glacialcast.PairingStore.Waiting.{Picks, InOrder, select-Picks, order_by-perm, order_by-InOrder}
use glacialcast.PairingStore.Rows.{
  PairRow, PairRequestDelivery, PublisherPairingInbox, max_inbox_records,
}
use glacialcast.PairingStore.Statements.{pending_for, is_purged, purge}
use glacialcast.PairingStore.Inbox.{received_before, fill_publisher, publisher_inbox}
use glacialcast.PairingStore.Effects.{HoldsConfirmation}
use glacialcast.PairingStore.Ceremonies.{Ceremony, ConfirmationOf}
use glacialcast.PairingStore.Bounds.{WithinBounds}
use glacialcast.PairingStore.Fresh.{Delivers, deliver_request-Delivers}
use glacialcast.PairingStore.Tables.{delete_where-All, select-All, order_by-All, count-delete_where}
use glacialcast.PairingStore.Listings.{
  length-order_by, length-select, take_all, delete_where-left, All-both, unexpired,
}

-- The stored text of a row's source address is that of an address.
abbrev pub Located : PairRow → Type 0
Located row = (source : SocketAddr) × (parse_socket_addr row.source_addr ≡ some source)

module _ (ext : External) (post : PairingPostcard) where
  -- The requests and confirmations that an inbox takes from rows, in their order.
  pub data Delivered
      : List PairRow → List PairRequestDelivery → List ViewerConfirmation → Type 0 where
    nothing : Delivered [] [] []
    request_alone :
        (row : PairRow) (d : PairRequestDelivery) (rows : List PairRow)
        (ds : List PairRequestDelivery) (cs : List ViewerConfirmation)
        → Delivers ext post row d
        → row.confirmation ≡ none
        → Delivered rows ds cs
        → Delivered (row ∷ rows) (d ∷ ds) cs
    with_confirmation :
        (row : PairRow) (d : PairRequestDelivery) (bytes : Bytes) (c : ViewerConfirmation)
        (rows : List PairRow) (ds : List PairRequestDelivery) (cs : List ViewerConfirmation)
        → Delivers ext post row d
        → row.confirmation ≡ some bytes
        → HoldsConfirmation ext post bytes c
        → Delivered rows ds cs
        → Delivered (row ∷ rows) (d ∷ ds) (c ∷ cs)

  -- A row that can be delivered at a time.
  abbrev Deliverable : ℤ → PairRow → Type 0
  Deliverable now_ms row =
      Ceremony ext post row
      × (row.received_at_ms ≤ℤ now_ms)
      × Located row
      × (leb_ℤ row.expires_at_ms now_ms ≡ false)

  abbrev inbox_with : List PairRequestDelivery → List ViewerConfirmation → PublisherPairingInbox
  inbox_with ds cs = record { requests = ds; confirmations = cs }

  decoded_confirmation :
      (r : PairRequest) (offer confirmation : Option Bytes)
      → ConfirmationOf ext post r offer confirmation
      → (confirmation ≡ none)
        ⊎ ((bytes : Bytes) × (c : ViewerConfirmation) × (confirmation ≡ some bytes)
            × HoldsConfirmation ext post bytes c)
  decoded_confirmation r offer none w = inl refl
  decoded_confirmation r none (some bytes) w = absurd w
  decoded_confirmation r (some offer) (some bytes) (o, c, p, q, v) = inr (bytes, c, refl, q)

  abbrev Filled : ℤ → PublisherPairingInbox → List PairRow → Type 0
  Filled now_ms inbox rows =
      (ds : List PairRequestDelivery) × (cs : List ViewerConfirmation) × (fill_publisher ext post
          now_ms inbox rows
        ≡ ok (inbox_with (inbox.requests ++ ds) (inbox.confirmations ++ cs)))
      × Delivered rows ds cs

  fill_publisher-Filled :
      (now_ms : ℤ) (requests : List PairRequestDelivery) (confirmations : List ViewerConfirmation)
      (rows : List PairRow)
      → All (Deliverable now_ms) rows
      → Filled now_ms (inbox_with requests confirmations) rows
  unfolding fill_publisher
  fill_publisher-Filled now_ms requests confirmations [] all =
      ([], [], rw (append-nil requests, append-nil confirmations), nothing)
  fill_publisher-Filled now_ms requests confirmations (row ∷ rows)
        ((w, later, (source, parsed), alive), all) =
      let (d, delivered, shows) =
        deliver_request-Delivers ext post row now_ms source w parsed later alive in
      elim (decoded_confirmation w.request row.offer row.confirmation w.confirmed) [
        | inl empty ↦
            let (ds, cs, filled, rest) =
              fill_publisher-Filled now_ms (requests ++ d ∷ []) confirmations rows all in
            (
              d ∷ ds,
              cs,
              rw (delivered, empty, filled, append_assoc requests (d ∷ []) ds),
              request_alone row d rows ds cs shows empty rest,
            )
        | inr (bytes, c, full, holds) ↦
            let (ds, cs, filled, rest) =
              fill_publisher-Filled now_ms (requests ++ d ∷ []) (confirmations ++ c ∷ []) rows
                all in
            (
              d ∷ ds,
              c ∷ cs,
              rw (
                delivered,
                full,
                holds,
                filled,
                append_assoc requests (d ∷ []) ds,
                append_assoc confirmations (c ∷ []) cs,
              ),
              with_confirmation row d bytes c rows ds cs shows full holds rest,
            )
      ]

  -- What a row that a call finds is when it was received by now.
  abbrev Arrived : ℤ → PairRow → Type 0
  Arrived now_ms row = Ceremony ext post row × ((row.received_at_ms ≤ℤ now_ms) × Located row)

  module _ (rows : List PairRow) (id : ℕ) (now_ms : ℤ) (all : All (Arrived now_ms) rows) where
    -- The pending rows of a publisher in the order of the query.
    abbrev pending_rows : List PairRow
    pending_rows = order_by received_before (select (pending_for id) (purge rows now_ms))

    abbrev Kept : PairRow → Type 0
    Kept row = Arrived now_ms row × (is_purged now_ms row ≡ false)

    purged-All : All Kept (purge rows now_ms)
    unfolding purge
    purged-All =
        All-both (Arrived now_ms) (λ (row : PairRow). is_purged now_ms row ≡ false)
          (delete_where (is_purged now_ms) rows)
          (delete_where-All (Arrived now_ms) (is_purged now_ms) rows all)
          (delete_where-left (is_purged now_ms) rows)

    pending-Deliverable : All (Deliverable now_ms) pending_rows
    pending-Deliverable =
        order_by-All (Deliverable now_ms) received_before
          (select (pending_for id) (purge rows now_ms))
          (All-imp (λ (row : PairRow). Kept row × (pending_for id row ≡ true)) (Deliverable now_ms)
            (select (pending_for id) (purge rows now_ms))
            (λ row h. (h.0.0.0, h.0.0.1.0, h.0.0.1.1, unexpired row id now_ms h.0.1 h.1))
            (select-All Kept (pending_for id) (purge rows now_ms) purged-All))

    fits : WithinBounds rows → length pending_rows ≤ max_inbox_records
    unfolding purge
    fits w = omega (
      arith,
      w.by_publisher id,
      count-delete_where (is_purged now_ms) (pending_for id) rows,
      length-select (pending_for id) (delete_where (is_purged now_ms) rows),
      length-order_by received_before
          (select (pending_for id) (delete_where (is_purged now_ms) rows)),
    )

  -- What an inbox delivers of rows: those that wait for the publisher, in order of arrival.
  abbrev pub DeliversWaiting :
      ℕ → ℤ → List PairRow → List PairRequestDelivery → List ViewerConfirmation → Type 0
  DeliversWaiting id now_ms rows ds cs =
      (waiting : List PairRow) × (ordered : List PairRow) × Picks id now_ms rows waiting
      × Perm ordered waiting
      × InOrder ordered
      × Delivered ordered ds cs

  -- Where Postcard reads back what it wrote, on rows that are ceremonies, were received by now,
  -- hold source addresses that parse and are within the bounds of the queue, publisher_inbox
  -- for an identity with a fingerprint returns the rows that the purge leaves, and delivers
  -- from the rows of that publisher without a decision that have not expired, all of them and
  -- in order of receive time and then of request identifier, each request with its parsed
  -- address and its time, and the confirmations of those that have one.
  pub publisher_inbox-Delivered :
      (rows : List PairRow) (publisher : IdentityPublic) (id : ℕ) (now_ms : ℤ)
      → All (Ceremony ext post) rows
      → All (λ (row : PairRow). row.received_at_ms ≤ℤ now_ms) rows
      → All Located rows
      → WithinBounds rows
      → fingerprint ext publisher ≡ ok id
      → (ds : List PairRequestDelivery) × (cs : List ViewerConfirmation) × (publisher_inbox ext post
            rows publisher now_ms
          ≡ ok (purge rows now_ms, inbox_with ds cs))
        × DeliversWaiting id now_ms rows ds cs
  unfolding publisher_inbox
  publisher_inbox-Delivered rows publisher id now_ms ceremonies received located bounds named =
      let all =
        All-both (Ceremony ext post)
          (λ (row : PairRow). (row.received_at_ms ≤ℤ now_ms) × Located row) rows ceremonies
          (All-both (λ (row : PairRow). row.received_at_ms ≤ℤ now_ms) Located rows received
            located) in
      let (ds, cs, filled, delivered) =
        fill_publisher-Filled now_ms [] [] (pending_rows rows id now_ms all)
          (pending-Deliverable rows id now_ms all) in
      (
        ds,
        cs,
        rw (
          named,
          take_all max_inbox_records (pending_rows rows id now_ms all)
              (fits rows id now_ms all bounds),
          filled,
        ),
        (
          select (pending_for id) (purge rows now_ms),
          pending_rows rows id now_ms all,
          select-Picks id now_ms rows,
          order_by-perm (select (pending_for id) (purge rows now_ms)),
          order_by-InOrder (select (pending_for id) (purge rows now_ms)),
          delivered,
        ),
      )
