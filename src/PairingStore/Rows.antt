-- ===== src/PairingStore/Rows.antt =====
-- crates/relay/src/pairing_store.rs: bounds, errors, and the rows of the table `pair_requests`. A socket address
-- is stored as the text that it displays as.
use glacialcast.Prelude.{ℕ, ◌*◌, Option, List, Bytes, ℤ}
use glacialcast.Pairing.Types.{
  PairingError, PairRequest, PairOffer, ViewerConfirmation, PublisherDecision,
}
use glacialcast.PairingStore.Address.{SocketAddr}

abbrev pub max_pending_global : ℕ
max_pending_global = 16_384

abbrev pub max_pending_per_publisher : ℕ
max_pending_per_publisher = 1_024

abbrev pub max_requests_per_minute : ℕ
max_requests_per_minute = 10

abbrev pub max_inbox_records : ℕ
max_inbox_records = 4_096

abbrev pub decision_retention_ms : ℕ
decision_retention_ms = 30 * 24 * 60 * 60 * 1_000

-- The errors of the source's `bail!` and `context`, and a broken constraint of the table.
pub data PairingStoreError : Type 0 where
  invalid_message : PairingError → PairingStoreError
  too_large malformed noncanonical : PairingStoreError
  conflicting_request global_full publisher_full source_limited identity_limited : PairingStoreError
  not_pending no_offer no_confirmation : PairingStoreError
  transcript_differs no_longer_exists invalid_lifetime invalid_address constraint :
      PairingStoreError

pub record PairRow : Type 0 where
  pub request_id : ℕ
  pub publisher_id : ℕ
  pub viewer_id : ℕ
  pub source_addr : List ℕ
  pub received_at_ms : ℤ
  pub expires_at_ms : ℤ
  pub request : Bytes
  pub offer : Option Bytes
  pub confirmation : Option Bytes
  pub decision : Option Bytes
  pub decided_at_ms : Option ℤ

pub record PairRequestDelivery : Type 0 where
  pub request : PairRequest
  pub source_addr : SocketAddr
  pub received_at_ms : ℤ

pub record PublisherPairingInbox : Type 0 where
  pub requests : List PairRequestDelivery
  pub confirmations : List ViewerConfirmation

pub record ViewerPairingInbox : Type 0 where
  pub offers : List PairOffer
  pub decisions : List PublisherDecision
