-- ===== src/Relay/Groups.antt =====
-- crates/relay/src/native_store.rs: the steps of `store_object` that open a group or stay in one, and the reading of
-- descriptors.
use glacialcast.Prelude.{
  ℕ, ◌+◌, Bool, true, false, not, ◌&&◌, ◌||◌, Option, none, some, ℤ, Result, ok, err, ◌>>=◌, ◌>>◌,
  fail_if, ok_or, leb, ◌==◌, is_some_eq, if◌then◌else◌,
}
use glacialcast.Native.Types.{NativeObjectKind, NativeObject, StreamDescriptor}
use glacialcast.Native.External.{External}
use glacialcast.Native.Descriptor.{decode_descriptor}
use glacialcast.Relay.Rows.{
  StoreError, invalid_descriptor, group_regressed, not_random_access, key_changed, missing_row,
  StreamRow, GroupKey, GroupRow, Database, to_sql_u64, max_ℤ,
}
use glacialcast.Relay.Statements.{
  find, of_stream, of_group, insert_group, update_stream, complete_group,
}

-- The errors of the protocol's functions under a context.
abbrev pub in_context {ℓ κ} :
    {E : Type ℓ} {A : Type κ} → (E → StoreError) → Result E A → Result StoreError A
in_context wrap (ok a) = ok a
in_context wrap (err e) = err (wrap e)

-- `validate_group_progression`.
abbrev pub regressed : Option ℕ → Option ℕ → ℕ → ℕ → Bool
regressed (some active_epoch) (some active_group) new_epoch new_group =
    active_epoch == new_epoch && leb new_group active_group
regressed (some active_epoch) none new_epoch new_group = false
regressed none active_group new_epoch new_group = false

abbrev pub is_cursor : NativeObjectKind → Bool
is_cursor NativeObjectKind.epoch = false
is_cursor NativeObjectKind.media = false
is_cursor NativeObjectKind.cursor = true

unfoldable pub validate_group_progression :
    Option ℕ → Option ℕ → ℕ → ℕ → NativeObject → Result StoreError (Unit {0})
validate_group_progression active_epoch active_group new_epoch new_group o = do
  fail_if (regressed active_epoch active_group new_epoch new_group) group_regressed
  fail_if (is_cursor o.header.kind || not o.header.random_access) not_random_access

-- `UPDATE groups SET complete = 1` for the active group of a stream, if it has one.
abbrev pub complete_active : Database → ℕ → Option ℕ → Option ℕ → Database
complete_active db stream (some epoch) (some group) =
    complete_group db (record { stream_id = stream; epoch_id = epoch; key_group = group })
complete_active db stream (some epoch) none = db
complete_active db stream none group = db

abbrev pub key_of : NativeObject → ℕ → GroupKey
key_of o key_group = record {
  stream_id = o.header.stream_id;
  epoch_id = o.header.epoch_id;
  key_group = key_group;
}

abbrev pub new_group : NativeObject → ℕ → ℕ → ℕ → ℤ → GroupRow
new_group o key_group sequence timestamp received_at_ms = record {
  key = key_of o key_group;
  key_id = o.header.key_id;
  first_sequence = sequence;
  last_sequence = sequence;
  first_timestamp = timestamp;
  last_timestamp = timestamp;
  received_first_ms = received_at_ms;
  received_last_ms = received_at_ms;
  retained_bytes = 0;
  complete = false;
}

-- The branch of `store_object` for a group that changed, and the one for the active group.
unfoldable pub start_group :
    Database → StreamRow → NativeObject → ℕ → ℕ → ℤ → Result StoreError Database
start_group db row o sequence key_group received_at_ms = do
  validate_group_progression row.active_epoch row.active_group o.header.epoch_id key_group o
  timestamp ← to_sql_u64 o.header.timestamp
  started ←
      insert_group (complete_active db o.header.stream_id row.active_epoch row.active_group)
        (new_group o key_group sequence timestamp received_at_ms)
  ok (
      update_stream started o.header.stream_id
        (λ s. record s { active_epoch = some o.header.epoch_id; active_group = some key_group }))

unfoldable pub same_group : Database → NativeObject → ℕ → Result StoreError Database
same_group db o key_group = do
  group ← ok_or (find (of_group (key_of o key_group)) db.groups) missing_row
  fail_if (not (group.key_id == o.header.key_id)) key_changed
  ok db

abbrev pub group_changed : StreamRow → NativeObject → ℕ → Bool
group_changed row o key_group =
    not (is_some_eq row.active_epoch o.header.epoch_id)
    || not (is_some_eq row.active_group key_group)

unfoldable pub enter_group :
    Database → StreamRow → NativeObject → ℕ → ℕ → ℤ → Result StoreError Database
unfolding start_group same_group
enter_group db row o sequence key_group received_at_ms =
    if group_changed row o key_group
    then start_group db row o sequence key_group received_at_ms
    else same_group db o key_group

abbrev pub extended : ℕ → ℕ → ℤ → ℕ → GroupRow → GroupRow
extended sequence timestamp received_at_ms bytes g = record g {
  last_sequence = sequence;
  last_timestamp = timestamp;
  received_last_ms = max_ℤ g.received_last_ms received_at_ms;
  retained_bytes = g.retained_bytes + bytes;
}

abbrev pub with_bytes : ℕ → GroupRow → GroupRow
with_bytes bytes g = record g { retained_bytes = g.retained_bytes + bytes }

module _ (ext : External) where
  -- `descriptor_in_transaction` and `descriptor_in_connection`.
  unfoldable pub descriptor_in : Database → ℕ → Result StoreError (Option StreamDescriptor)
  descriptor_in db stream = elim (find (of_stream stream) db.streams) [
    | none ↦ ok none
    | some row ↦
        in_context invalid_descriptor (decode_descriptor ext row.descriptor) >>= λ d. ok (some d)
  ]
