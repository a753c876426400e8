-- ===== src/Relay/Store.antt =====
-- crates/relay/src/native_store.rs: `put_descriptor` and `store_object`. A transaction that fails leaves the tables as
-- they were, since SQLite rolls it back.
use glacialcast.Prelude.{
  ℕ, ◌+◌, ◌-◌, true, false, not, ◌||◌, Option, none, some, Bytes, length, ℤ, Result, ok, ◌>>=◌,
  ◌>>◌, fail_if, ok_or, leb, ◌==◌, same_bytes, if◌then◌else◌,
}
use glacialcast.Native.Types.{IdentityPublic, NativeObject, StreamDescriptor}
use glacialcast.Native.External.{External}
use glacialcast.Native.Identity.{fingerprint}
use glacialcast.Native.Object.{validate_shape, verify_public, encode_object}
use glacialcast.Native.Descriptor.{encode_descriptor}
use glacialcast.Relay.Rows.{
  StoreError, GroupItemKind, invalid_object, invalid_descriptor, invalid_identity, no_descriptor,
  other_publisher, descriptor_limit, conflicting_retry, sequence_exhausted, out_of_order,
  missing_row, NativeStore, NativeCommit, StreamRow, ObjectRow, Database, i64_half, to_sql_u64,
}
use glacialcast.Relay.Statements.{
  find, count, of_stream, object_at, insert_stream, insert_object, update_stream, update_group,
}
use glacialcast.Relay.Retention.{check_group_growth, enforce_retention}
use glacialcast.Relay.Groups.{in_context, descriptor_in, key_of, enter_group, extended}

module _ (ext : External) (store : NativeStore) where
  -- The match of `put_descriptor` on the existing row.
  unfoldable pub put_row : Database → ℕ → ℕ → Bytes → Option StreamRow → Result StoreError Database
  put_row db stream publisher encoded (some row) = do
    fail_if (not (row.publisher_id == publisher)) other_publisher
    ok (
        if same_bytes row.descriptor encoded
        then db
        else update_stream db stream (λ s. record s { descriptor = encoded }))
  put_row db stream publisher encoded none = do
    fail_if
        (leb store.limits.max_streams (length db.streams)
          || leb store.limits.max_streams_per_publisher
              (count (λ s. s.publisher_id == publisher) db.streams))
        descriptor_limit
    insert_stream db (record {
      stream_id = stream;
      publisher_id = publisher;
      descriptor = encoded;
      high_water = 0;
      active_epoch = none;
      active_group = none;
    })

  unfoldable pub put_descriptor : Database → StreamDescriptor → Result StoreError Database
  unfolding put_row
  put_descriptor db d = do
    encoded ← in_context invalid_descriptor (encode_descriptor ext d)
    publisher ← in_context invalid_identity (fingerprint ext d.body.publisher)
    put_row db d.body.stream_id publisher encoded (find (of_stream d.body.stream_id) db.streams)

  -- `store_object` from the reading of the high-water mark on.
  unfoldable pub append_object :
      Database
      → NativeObject
      → IdentityPublic
      → Bytes
      → ℕ
      → ℤ
      → Result StoreError (NativeCommit × Database)
  unfolding enter_group
  append_object db o publisher encoded sequence received_at_ms = do
    row ← ok_or (find (of_stream o.header.stream_id) db.streams) missing_row
    fail_if (leb (i64_half - 1) row.high_water) sequence_exhausted
    fail_if (not (sequence == row.high_water + 1)) out_of_order
    key_group ← to_sql_u64 o.header.key_group
    entered ← enter_group db row o sequence key_group received_at_ms
    publisher_id ← in_context invalid_identity (fingerprint ext publisher)
    check_group_growth store entered publisher_id (key_of o key_group) (length encoded)
        GroupItemKind.object
    written ← insert_object entered (record {
      group = key_of o key_group;
      sequence = sequence;
      received_at_ms = received_at_ms;
      object = encoded;
    })
    object_bytes ← to_sql_u64 (length encoded)
    timestamp ← to_sql_u64 o.header.timestamp
    grown ←
        update_group written (key_of o key_group)
          (extended sequence timestamp received_at_ms object_bytes)
    (evicted, kept) ←
        enforce_retention store
          (update_stream grown o.header.stream_id (λ s. record s { high_water = sequence }))
          o.header.stream_id received_at_ms
    ok (
      record { committed_through = o.header.sequence; evicted_groups = evicted; inserted = true },
      kept,
    )

  -- The match of `store_object` on an object with the same sequence.
  unfoldable pub store_encoded :
      Database
      → NativeObject
      → IdentityPublic
      → Bytes
      → ℕ
      → ℤ
      → Option ObjectRow
      → Result StoreError (NativeCommit × Database)
  unfolding append_object
  store_encoded db o publisher encoded sequence received_at_ms (some existing) = do
    fail_if (not (same_bytes existing.object encoded)) conflicting_retry
    ok (record { committed_through = o.header.sequence; evicted_groups = 0; inserted = false }, db)
  store_encoded db o publisher encoded sequence received_at_ms none =
      append_object db o publisher encoded sequence received_at_ms

  unfoldable pub store_object :
      Database → NativeObject → ℤ → Result StoreError (NativeCommit × Database)
  unfolding descriptor_in store_encoded
  store_object db o received_at_ms = do
    in_context invalid_object (validate_shape ext o)
    found ← descriptor_in ext db o.header.stream_id
    descriptor ← ok_or found no_descriptor
    in_context invalid_object (verify_public ext o descriptor.body.publisher)
    encoded ← in_context invalid_object (encode_object ext o descriptor.body.publisher)
    sequence ← to_sql_u64 o.header.sequence
    store_encoded db o descriptor.body.publisher encoded sequence received_at_ms
        (find (object_at o.header.stream_id sequence) db.objects)
