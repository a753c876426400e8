-- ===== src/Relay/Rows.antt =====
-- crates/relay/src/native_store.rs: limits, results, and the rows of the SQLite tables. An identifier is the
-- number that its bytes stand for, and a column with `CHECK(... >= 0)` a natural number.
use glacialcast.Prelude.{
  ℕ, ◌+◌, ◌-◌, ◌*◌, ◌^◌, min, Bool, ◌||◌, Option, List, Bytes, ℤ, Result, ok, err, ◌>>◌, fail_if,
  ltb, ◌==◌, is_some_eq, if◌then◌else◌,
}
use glacialcast.Native.Types.{IdentityError, NativeStreamError}
use glacialcast.Native.EnvelopeTypes.{EnvelopeError}
pub use glacialcast.Prelude.{i64_half, ltb_ℤ, max_ℤ, saturating_sub_ℤ}

abbrev pub max_list_objects : ℕ
max_list_objects = 16_384

pub record NativeStoreLimits : Type 0 where
  pub max_streams : ℕ
  pub max_streams_per_publisher : ℕ
  pub max_objects_per_group : ℕ
  pub max_group_bytes : ℕ
  pub max_envelopes_per_group : ℕ
  pub max_total_bytes : ℕ
  pub max_publisher_bytes : ℕ

abbrev pub default_limits : NativeStoreLimits
default_limits = record {
  max_streams = 1_024;
  max_streams_per_publisher = 16;
  max_objects_per_group = 4_096;
  max_group_bytes = 64 * 1024 * 1024;
  max_envelopes_per_group = 128;
  max_total_bytes = 10 * 1024 * 1024 * 1024;
  max_publisher_bytes = 1024 * 1024 * 1024;
}

-- `NativeStoreInner` without its paths and its connection; an age is a number of nanoseconds.
pub record NativeStore : Type 0 where
  pub retention_bytes : Option ℕ
  pub retention_age : Option ℕ
  pub limits : NativeStoreLimits

-- The errors of the source's `bail!` and `context`, and those that SQLite raises: a query that wants a
-- row and finds none, a broken constraint, and an integer that leaves `i64`.
pub data StoreError : Type 0 where
  zero_retention inconsistent_limits : StoreError
  invalid_object : NativeStreamError → StoreError
  invalid_descriptor : NativeStreamError → StoreError
  invalid_envelope : EnvelopeError → StoreError
  invalid_identity : IdentityError → StoreError
  no_descriptor other_publisher descriptor_limit : StoreError
  conflicting_retry sequence_exhausted out_of_order : StoreError
  group_regressed not_random_access key_changed key_contradicted : StoreError
  group_limit byte_quota : StoreError
  list_limit invalid_lookup : StoreError
  missing_row constraint integer_overflow beyond_durable_bound : StoreError
  unfinished : StoreError

pub data GroupItemKind : Type 0 where
  object envelope : GroupItemKind

-- crates/protocol/src/wire.rs: `SubscriptionStart`.
pub data SubscriptionStart : Type 0 where
  live oldest_retained : SubscriptionStart
  sequence timestamp : ℕ → SubscriptionStart

pub record NativeCommit : Type 0 where
  pub committed_through : ℕ
  pub evicted_groups : ℕ
  pub inserted : Bool

pub record NativeRetainedBounds : Type 0 where
  pub oldest_sequence : ℕ
  pub newest_sequence : ℕ
  pub oldest_timestamp : ℕ
  pub newest_timestamp : ℕ

pub record NativeStreamSummary : Type 0 where
  pub publisher_id : ℕ
  pub high_water : ℕ
  pub retained_bytes : ℕ
  pub retained : Option NativeRetainedBounds

pub record StreamRow : Type 0 where
  pub stream_id : ℕ
  pub publisher_id : ℕ
  pub descriptor : Bytes
  pub high_water : ℕ
  pub active_epoch : Option ℕ
  pub active_group : Option ℕ

-- The primary key of a group.
pub record GroupKey : Type 0 where
  pub stream_id : ℕ
  pub epoch_id : ℕ
  pub key_group : ℕ

pub record GroupRow : Type 0 where
  pub key : GroupKey
  pub key_id : ℕ
  pub first_sequence : ℕ
  pub last_sequence : ℕ
  pub first_timestamp : ℕ
  pub last_timestamp : ℕ
  pub received_first_ms : ℤ
  pub received_last_ms : ℤ
  pub retained_bytes : ℕ
  pub complete : Bool

-- The group's key holds the stream.
pub record ObjectRow : Type 0 where
  pub group : GroupKey
  pub sequence : ℕ
  pub received_at_ms : ℤ
  pub object : Bytes

pub record EnvelopeRow : Type 0 where
  pub group : GroupKey
  pub recipient_id : ℕ
  pub key_id : ℕ
  pub received_at_ms : ℤ
  pub envelope : Bytes

pub record Database : Type 0 where
  pub streams : List StreamRow
  pub groups : List GroupRow
  pub objects : List ObjectRow
  pub envelopes : List EnvelopeRow

-- `to_sql_u64`.
abbrev pub to_sql_u64 : ℕ → Result StoreError ℕ
to_sql_u64 value = if ltb value i64_half then ok value else err beyond_durable_bound

abbrev pub saturating_add : ℕ → ℕ → ℕ
saturating_add a b = min (a + b) (2 ^ 64 - 1)

-- The checks of `open_with_limits` on its arguments.
unfoldable pub check_limits : NativeStore → Result StoreError (Unit {0})
check_limits store = do
  fail_if (is_some_eq store.retention_bytes 0 || is_some_eq store.retention_age 0) zero_retention
  fail_if
      (store.limits.max_streams == 0
        || store.limits.max_streams_per_publisher == 0
        || ltb store.limits.max_streams store.limits.max_streams_per_publisher
        || store.limits.max_objects_per_group == 0
        || store.limits.max_group_bytes == 0
        || store.limits.max_envelopes_per_group == 0
        || store.limits.max_total_bytes == 0
        || store.limits.max_publisher_bytes == 0
        || ltb store.limits.max_total_bytes store.limits.max_publisher_bytes)
      inconsistent_limits
