-- ===== src/PairingStore/Store.antt =====
-- crates/relay/src/pairing_store.rs: the transactions that queue the messages of a ceremony. A transaction takes
-- the rows and returns those that it commits; one that fails commits nothing.
use glacialcast.Prelude.{
  ℕ, Bool, true, false, not, Option, none, some, List, Bytes, ℤ, Result, ok, ◌>>=◌, ◌>>◌, fail_if,
  ok_or, ◌==◌, is_some, same_bytes, if◌then◌else◌, saturating_sub_ℤ,
}
use glacialcast.Native.External.{External}
use glacialcast.Native.Identity.{fingerprint}
use glacialcast.Pairing.Types.{
  PairRequest, PairOffer, ViewerConfirmation, PairDecisionReason, manual_verified,
  trusted_viewer_ca, open_policy, rejected, PublisherDecision,
}
use glacialcast.Pairing.Postcard.{PairingPostcard}
use glacialcast.Pairing.Checks.{from_identity}
use glacialcast.Pairing.Request.{verify_request, request_id}
use glacialcast.Pairing.Offer.{verify_offer, transcript_hash, verify_confirmation}
use glacialcast.Pairing.Decision.{verify_decision}
use glacialcast.Relay.Statements.{find, update_one}
use glacialcast.PairingStore.Rows.{
  PairingStoreError, conflicting_request, global_full, publisher_full, source_limited,
  identity_limited, not_pending, no_offer, no_confirmation, transcript_differs, PairRow,
  max_pending_global, max_pending_per_publisher, max_requests_per_minute,
}
use glacialcast.PairingStore.Statements.{
  in_context, of_request, is_pending, pending_for, recent_from, recent_by, purge, insert_request,
  require_count_below, encode_pair, request_by_id, offer_by_id, confirmation_by_id, store_once,
  column_of,
}

abbrev pub new_row : ℕ → ℕ → ℕ → List ℕ → ℤ → ℤ → Bytes → PairRow
new_row id publisher_id viewer_id source_addr now_ms expires_at_ms encoded = record {
  request_id = id;
  publisher_id = publisher_id;
  viewer_id = viewer_id;
  source_addr = source_addr;
  received_at_ms = now_ms;
  expires_at_ms = expires_at_ms;
  request = encoded;
  offer = none;
  confirmation = none;
  decision = none;
  decided_at_ms = none;
}

abbrev pub is_manual : PairDecisionReason → Bool
is_manual manual_verified = true
is_manual trusted_viewer_ca = false
is_manual open_policy = false
is_manual rejected = false

abbrev pub decided : Bytes → ℤ → PairRow → PairRow
decided encoded now_ms row = record row { decision = some encoded; decided_at_ms = some now_ms }

-- The queue bounds and rate limits of `enqueue_request`.
unfoldable pub check_limits :
    List PairRow → ℕ → ℕ → List ℕ → ℤ → Result PairingStoreError (Unit {0})
unfolding require_count_below
check_limits rows publisher_id viewer_id source_addr now_ms = do
  require_count_below is_pending rows max_pending_global global_full
  require_count_below (pending_for publisher_id) rows max_pending_per_publisher publisher_full
  require_count_below (recent_from source_addr (saturating_sub_ℤ now_ms 60_000)) rows
      max_requests_per_minute source_limited
  require_count_below (recent_by viewer_id (saturating_sub_ℤ now_ms 60_000)) rows
      max_requests_per_minute identity_limited

-- The rest of `enqueue_request`, for a request ID that has no row.
unfoldable pub insert_within_limits :
    List PairRow → PairRow → ℤ → Result PairingStoreError (List PairRow × Bool)
unfolding check_limits insert_request
insert_within_limits rows row now_ms = do
  check_limits rows row.publisher_id row.viewer_id row.source_addr now_ms
  inserted ← insert_request rows row
  ok (inserted, true)

unfoldable pub enqueue_row :
    List PairRow → PairRow → ℤ → Option PairRow → Result PairingStoreError (List PairRow × Bool)
unfolding insert_within_limits
enqueue_row rows row now_ms none = insert_within_limits rows row now_ms
enqueue_row rows row now_ms (some existing) = do
  fail_if (not (same_bytes existing.request row.request)) conflicting_request
  ok (rows, false)

-- `decision` of the row, and its update if it has none.
unfoldable pub decide_once : List PairRow → ℕ → Bytes → ℤ → List PairRow × Bool
unfolding find update_one
decide_once rows id encoded now_ms =
    if is_some (column_of (λ row. row.decision) (find (of_request id) rows))
    then (rows, false)
    else (update_one (of_request id) (decided encoded now_ms) rows, true)

module _ (ext : External) (post : PairingPostcard) where
  unfoldable pub enqueue_request :
      List PairRow → PairRequest → List ℕ → ℤ → ℤ → Result PairingStoreError (List PairRow × Bool)
  unfolding encode_pair purge find enqueue_row
  enqueue_request rows request source_addr now_ms max_lifetime_ms = do
    in_context (verify_request ext post request now_ms max_lifetime_ms)
    encoded ← encode_pair post.request_bytes post.take_request request
    let id = request_id ext post request
    publisher_id ← in_context (from_identity (fingerprint ext request.body.publisher))
    viewer_id ← in_context (from_identity (fingerprint ext request.body.viewer))
    enqueue_row (purge rows now_ms)
        (new_row id publisher_id viewer_id source_addr now_ms request.body.expires_at_ms encoded)
        now_ms (find (of_request id) (purge rows now_ms))

  unfoldable pub store_offer :
      List PairRow → PairOffer → ℤ → ℤ → Result PairingStoreError (List PairRow × Bool)
  unfolding purge request_by_id encode_pair store_once
  store_offer rows offer now_ms max_lifetime_ms = do
    queued ← request_by_id post (purge rows now_ms) offer.body.request_id
    request ← ok_or queued not_pending
    in_context (verify_offer ext post offer request now_ms max_lifetime_ms)
    encoded ← encode_pair post.offer_bytes post.take_offer offer
    store_once (λ row. row.offer) (λ row. record row { offer = some encoded }) (purge rows now_ms)
        offer.body.request_id

  unfoldable pub store_confirmation :
      List PairRow → ViewerConfirmation → ℤ → Result PairingStoreError (List PairRow × Bool)
  unfolding purge request_by_id offer_by_id encode_pair store_once
  store_confirmation rows confirmation now_ms = do
    queued ← request_by_id post (purge rows now_ms) confirmation.body.request_id
    request ← ok_or queued not_pending
    offered ← offer_by_id post (purge rows now_ms) confirmation.body.request_id
    offer ← ok_or offered no_offer
    in_context (verify_confirmation ext post confirmation request offer)
    encoded ← encode_pair post.confirmation_bytes post.take_confirmation confirmation
    store_once (λ row. row.confirmation) (λ row. record row { confirmation = some encoded })
        (purge rows now_ms) confirmation.body.request_id

  -- What `store_decision` asks of a manual decision.
  unfoldable pub check_ceremony :
      List PairRow → PublisherDecision → PairRequest → Result PairingStoreError (Unit {0})
  unfolding offer_by_id confirmation_by_id
  check_ceremony rows decision request = do
    offered ← offer_by_id post rows decision.body.request_id
    offer ← ok_or offered no_offer
    confirmed ← confirmation_by_id post rows decision.body.request_id
    confirmation ← ok_or confirmed no_confirmation
    in_context (verify_confirmation ext post confirmation request offer)
    transcript ← in_context (transcript_hash ext post request offer)
    fail_if (not (decision.body.transcript_hash == transcript)) transcript_differs

  unfoldable pub store_decision :
      List PairRow → PublisherDecision → ℤ → Result PairingStoreError (List PairRow × Bool)
  unfolding purge request_by_id check_ceremony encode_pair decide_once
  store_decision rows decision now_ms = do
    queued ← request_by_id post (purge rows now_ms) decision.body.request_id
    request ← ok_or queued not_pending
    in_context (verify_decision ext post decision request request.body.publisher)
    if is_manual decision.body.reason
        then check_ceremony (purge rows now_ms) decision request
        else ok tt
    encoded ← encode_pair post.decision_bytes post.take_decision decision
    ok (decide_once (purge rows now_ms) decision.body.request_id encoded now_ms)
