-- ===== src/PairingStore/Statements.antt =====
-- crates/relay/src/pairing_store.rs: the SQL statements on `pair_requests`, as functions on its rows. The primary
-- key names one row at most.
use glacialcast.Prelude.{
  ℕ, Bool, true, false, not, ◌&&◌, ◌||◌, Option, none, some, List, ◌∷◌, Bytes, length, ℤ, Result,
  ok, err, ◌>>=◌, ◌>>◌, fail_if, ok_or, ltb, leb, ◌==◌, ltb_ℤ, leb_ℤ, saturating_sub_ℤ, is_some,
  is_empty, same_bytes, if◌then◌else◌,
}
use glacialcast.Pairing.Types.{
  PairingError, PairRequest, PairOffer, ViewerConfirmation, max_pairing_message_len,
}
use glacialcast.Pairing.Postcard.{PairingPostcard}
use glacialcast.Relay.Statements.{find, count, delete_where, update_one}
use glacialcast.PairingStore.Rows.{
  PairingStoreError, invalid_message, too_large, malformed, noncanonical, no_longer_exists,
  constraint, PairRow, decision_retention_ms,
}

-- A pairing error under a context.
abbrev pub in_context {ℓ} : {A : Type ℓ} → Result PairingError A → Result PairingStoreError A
in_context (ok a) = ok a
in_context (err e) = err (invalid_message e)

abbrev pub of_request : ℕ → PairRow → Bool
of_request id row = row.request_id == id

abbrev pub is_pending : PairRow → Bool
is_pending row = not (is_some row.decision)

abbrev pub pending_for : ℕ → PairRow → Bool
pending_for publisher_id row = row.publisher_id == publisher_id && is_pending row

abbrev pub recent_from : List ℕ → ℤ → PairRow → Bool
recent_from source_addr window_start row =
    same_bytes row.source_addr source_addr && leb_ℤ window_start row.received_at_ms

abbrev pub recent_by : ℕ → ℤ → PairRow → Bool
recent_by viewer_id window_start row =
    row.viewer_id == viewer_id && leb_ℤ window_start row.received_at_ms

-- The condition of `purge`; a comparison with NULL does not hold.
abbrev pub decided_before : ℤ → Option ℤ → Bool
decided_before limit none = false
decided_before limit (some decided) = ltb_ℤ decided limit

abbrev pub is_purged : ℤ → PairRow → Bool
is_purged now_ms row =
    is_pending row && leb_ℤ row.expires_at_ms now_ms
    || is_some row.decision
      && decided_before (saturating_sub_ℤ now_ms decision_retention_ms) row.decided_at_ms

unfoldable pub purge : List PairRow → ℤ → List PairRow
unfolding delete_where
purge rows now_ms = delete_where (is_purged now_ms) rows

-- `INSERT INTO pair_requests`, under the primary key and the check on the address.
unfoldable pub insert_request : List PairRow → PairRow → Result PairingStoreError (List PairRow)
unfolding find
insert_request rows row = do
  fail_if
      (is_some (find (of_request row.request_id) rows)
        || ltb (length row.source_addr) 3
        || ltb 128 (length row.source_addr))
      constraint
  ok (row ∷ rows)

unfoldable pub require_count_below :
    (PairRow → Bool) → List PairRow → ℕ → PairingStoreError → Result PairingStoreError (Unit {0})
unfolding count
require_count_below matches rows limit error = fail_if (leb limit (count matches rows)) error

-- `encode_pair` and `decode_pair` at each type of message, with what Postcard does at it.
module _ {A : Type 0} (bytes_of : A → Bytes) (parse : Bytes → Option (A × Bytes)) where
  unfoldable pub encode_pair : A → Result PairingStoreError Bytes
  encode_pair value = do
    fail_if (ltb max_pairing_message_len (length (bytes_of value))) too_large
    ok (bytes_of value)

  unfoldable pub decode_pair : Bytes → Result PairingStoreError A
  decode_pair bytes = do
    fail_if (ltb max_pairing_message_len (length bytes)) too_large
    (value, remainder) ← ok_or (parse bytes) malformed
    fail_if (not (is_empty remainder) || not (same_bytes (bytes_of value) bytes)) noncanonical
    ok value

  -- `optional.map(decode_pair).transpose()`.
  abbrev pub decode_optional : Option Bytes → Result PairingStoreError (Option A)
  decode_optional none = ok none
  decode_optional (some bytes) = decode_pair bytes >>= λ value. ok (some value)

-- A nullable column of the row of a request, flattened.
abbrev pub column_of : (PairRow → Option Bytes) → Option PairRow → Option Bytes
column_of column none = none
column_of column (some row) = column row

abbrev pub request_of : Option PairRow → Option Bytes
request_of none = none
request_of (some row) = some row.request

module _ (post : PairingPostcard) where
  unfoldable pub request_by_id : List PairRow → ℕ → Result PairingStoreError (Option PairRequest)
  unfolding find decode_pair
  request_by_id rows id =
      decode_optional post.request_bytes post.take_request (request_of (find (of_request id) rows))

  unfoldable pub offer_by_id : List PairRow → ℕ → Result PairingStoreError (Option PairOffer)
  unfolding find decode_pair
  offer_by_id rows id =
      decode_optional post.offer_bytes post.take_offer
        (column_of (λ row. row.offer) (find (of_request id) rows))

  unfoldable pub confirmation_by_id :
      List PairRow → ℕ → Result PairingStoreError (Option ViewerConfirmation)
  unfolding find decode_pair
  confirmation_by_id rows id =
      decode_optional post.confirmation_bytes post.take_confirmation
        (column_of (λ row. row.confirmation) (find (of_request id) rows))

-- `store_once`, by the column that it reads and the update that it makes.
abbrev pub write_once :
    (PairRow → Option Bytes)
    → (PairRow → PairRow)
    → ℕ
    → List PairRow
    → Option PairRow
    → Result PairingStoreError (List PairRow × Bool)
write_once column update id rows none = err no_longer_exists
write_once column update id rows (some row) =
    if is_some (column row)
    then ok (rows, false)
    else ok (update_one (of_request id) update rows, true)

unfoldable pub store_once :
    (PairRow → Option Bytes)
    → (PairRow → PairRow)
    → List PairRow
    → ℕ
    → Result PairingStoreError (List PairRow × Bool)
unfolding find update_one
store_once column update rows id = write_once column update id rows (find (of_request id) rows)
