-- ===== src/Relay/Upkeep.antt =====
-- crates/relay/src/native_store.rs: `store_envelope`, `enforce_retention_at` and `finalize_stream`.
use glacialcast.Prelude.{
  ℕ, Bool, true, false, not, Option, none, some, Bytes, length, ℤ, Result, ok, ◌>>=◌, ◌>>◌, fail_if,
  ok_or, ltb, ◌==◌,
}
use glacialcast.Native.Types.{IdentityPublic}
use glacialcast.Native.EnvelopeTypes.{KeyEnvelope}
use glacialcast.Native.External.{External}
use glacialcast.Native.Identity.{fingerprint}
use glacialcast.Native.Envelope.{validate_envelope_shape, verify_envelope, encode_envelope}
use glacialcast.Relay.Rows.{
  StoreError, GroupItemKind, invalid_envelope, invalid_identity, no_descriptor, key_contradicted,
  NativeStore, StreamRow, GroupKey, GroupRow, Database, to_sql_u64,
}
use glacialcast.Relay.Statements.{
  find, of_stream, of_group, envelope_at, order_by, insert_envelope, update_stream, complete_group,
  update_group,
}
use glacialcast.Relay.Retention.{check_group_growth, enforce_retention, enforce_all}
use glacialcast.Relay.Groups.{in_context, descriptor_in, with_bytes}

abbrev pub envelope_key : KeyEnvelope → ℕ → GroupKey
envelope_key e key_group = record {
  stream_id = e.header.stream_id;
  epoch_id = e.header.epoch_id;
  key_group = key_group;
}

module _ (ext : External) (store : NativeStore) where
  -- `store_envelope` from the insertion's limits on.
  unfoldable pub append_envelope :
      Database
      → KeyEnvelope
      → IdentityPublic
      → Bytes
      → GroupKey
      → ℤ
      → Result StoreError (Bool × Database)
  append_envelope db e publisher encoded key received_at_ms = do
    publisher_id ← in_context invalid_identity (fingerprint ext publisher)
    check_group_growth store db publisher_id key (length encoded) GroupItemKind.envelope
    written ← insert_envelope db (record {
      group = key;
      recipient_id = e.header.recipient_id;
      key_id = e.header.key_id;
      received_at_ms = received_at_ms;
      envelope = encoded;
    })
    envelope_bytes ← to_sql_u64 (length encoded)
    grown ← update_group written key (with_bytes envelope_bytes)
    (evicted, kept) ← enforce_retention store grown e.header.stream_id received_at_ms
    ok (true, kept)

  -- The group's key identifier is checked before a retry is looked for.
  unfoldable pub store_in_group :
      Database
      → KeyEnvelope
      → IdentityPublic
      → Bytes
      → GroupKey
      → ℤ
      → Option GroupRow
      → Result StoreError (Bool × Database)
  unfolding append_envelope
  store_in_group db e publisher encoded key received_at_ms none = ok (false, db)
  store_in_group db e publisher encoded key received_at_ms (some group) = do
    fail_if (not (group.key_id == e.header.key_id)) key_contradicted
    elim (find (envelope_at key e.header.recipient_id) db.envelopes) [
      | some existing ↦ ok (false, db)
      | none ↦ append_envelope db e publisher encoded key received_at_ms
    ]

  unfoldable pub store_envelope : Database → KeyEnvelope → ℤ → Result StoreError (Bool × Database)
  unfolding descriptor_in store_in_group
  store_envelope db e received_at_ms = do
    in_context invalid_envelope (validate_envelope_shape e)
    found ← descriptor_in ext db e.header.stream_id
    descriptor ← ok_or found no_descriptor
    in_context invalid_envelope (verify_envelope ext e descriptor.body.publisher)
    encoded ← in_context invalid_envelope (encode_envelope ext e descriptor.body.publisher)
    key_group ← to_sql_u64 e.header.key_group_id
    store_in_group db e descriptor.body.publisher encoded (envelope_key e key_group) received_at_ms
        (find (of_group (envelope_key e key_group)) db.groups)

-- Identifiers have one length, so that they order as numbers.
abbrev pub stream_before : StreamRow → StreamRow → Bool
stream_before a b = ltb a.stream_id b.stream_id

unfoldable pub enforce_retention_at : NativeStore → Database → ℤ → Result StoreError (ℕ × Database)
unfolding enforce_all order_by
enforce_retention_at store db now_ms =
    enforce_all store now_ms 0 db (order_by stream_before db.streams)

abbrev pub finalize_row : Database → ℕ → Option StreamRow → Database
finalize_row db stream none = db
finalize_row db stream (some row) = elim row.active_epoch [
  | none ↦ db
  | some epoch ↦ elim row.active_group [
    | none ↦ db
    | some group ↦
        update_stream
          (complete_group db (record { stream_id = stream; epoch_id = epoch; key_group = group }))
          stream (λ s. record s { active_epoch = none; active_group = none })
  ]
]

-- `finalize_stream`, which changes nothing for a stream without an active group.
unfoldable pub finalize_stream : Database → ℕ → Database
unfolding find
finalize_stream db stream = finalize_row db stream (find (of_stream stream) db.streams)
