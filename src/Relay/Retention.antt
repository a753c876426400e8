-- ===== src/Relay/Retention.antt =====
-- crates/relay/src/native_store.rs: `check_group_growth` and `enforce_retention`.
use glacialcast.Prelude.{
  ℕ, zero, suc, ◌-◌, ◌/◌, min, Bool, true, false, not, ◌&&◌, ◌||◌, Option, none, some, List, [],
  ◌∷◌, length, ℤ, Result, ok, err, ◌>>=◌, ◌>>◌, fail_if, ok_or, ltb, leb, ◌==◌, is_some_and,
}
use glacialcast.Relay.Rows.{
  StoreError, missing_row, group_limit, byte_quota, unfinished, GroupItemKind, NativeStore,
  GroupKey, StreamRow, GroupRow, Database, i64_half, saturating_add, ltb_ℤ, saturating_sub_ℤ,
}
use glacialcast.Relay.Statements.{
  find, count, first_by, of_stream, of_group, object_in, envelope_in, delete_group, sum_bytes,
}

-- `groups g JOIN streams s USING(stream_id) WHERE s.publisher_id = ?1`.
abbrev pub published_by : Database → ℕ → GroupRow → Bool
published_by db publisher g =
    is_some_and (find (of_stream g.key.stream_id) db.streams) (λ s. s.publisher_id == publisher)

abbrev pub item_count : Database → GroupItemKind → GroupKey → ℕ
item_count db GroupItemKind.object key = count (object_in key) db.objects
item_count db GroupItemKind.envelope key = count (envelope_in key) db.envelopes

abbrev pub item_limit : NativeStore → GroupItemKind → ℕ
item_limit store GroupItemKind.object = store.limits.max_objects_per_group
item_limit store GroupItemKind.envelope = store.limits.max_envelopes_per_group

-- The arguments after the table are the fields of `GroupGrowth`.
unfoldable pub check_group_growth :
    NativeStore → Database → ℕ → GroupKey → ℕ → GroupItemKind → Result StoreError (Unit {0})
check_group_growth store db publisher_id key added_bytes item_kind = do
  group ← ok_or (find (of_group key) db.groups) missing_row
  fail_if
      (leb (item_limit store item_kind) (item_count db item_kind key)
        || ltb store.limits.max_group_bytes (saturating_add group.retained_bytes added_bytes))
      group_limit
  total_bytes ← sum_bytes (λ g. true) db.groups
  publisher_bytes ← sum_bytes (published_by db publisher_id) db.groups
  fail_if
      (ltb store.limits.max_total_bytes (saturating_add total_bytes added_bytes)
        || ltb store.limits.max_publisher_bytes (saturating_add publisher_bytes added_bytes))
      byte_quota

-- `age.as_millis()` as an `i64`.
abbrev pub age_ms : ℕ → ℕ
age_ms nanoseconds = min (nanoseconds / 1_000_000) (i64_half - 1)

abbrev pub cutoff_of : NativeStore → ℤ → Option ℤ
cutoff_of store now_ms = elim store.retention_age [
  | none ↦ none
  | some age ↦ some (saturating_sub_ℤ now_ms (age_ms age))
]

abbrev pub in_stream : ℕ → GroupRow → Bool
in_stream stream g = g.key.stream_id == stream

abbrev pub complete_in : ℕ → GroupRow → Bool
complete_in stream g = g.key.stream_id == stream && g.complete

abbrev pub by_sequence : GroupRow → GroupRow → Bool
by_sequence a b = ltb a.first_sequence b.first_sequence

unfoldable pub bytes_exceeded : NativeStore → ℕ → Database → Result StoreError Bool
bytes_exceeded store stream db = elim store.retention_bytes [
  | none ↦ ok false
  | some limit ↦ sum_bytes (in_stream stream) db.groups >>= λ bytes. ok (ltb limit bytes)
]

abbrev pub age_exceeded : Option ℤ → GroupRow → Bool
age_exceeded cutoff g = is_some_and cutoff (ltb_ℤ g.received_last_ms)

-- The `loop`, with the number of groups removed so far. Each round but the last removes a group, so
-- that one round more than there are groups is enough fuel.
unfoldable pub retain :
    ℕ → NativeStore → ℕ → Option ℤ → ℕ → Database → Result StoreError (ℕ × Database)
retain zero store stream cutoff removed db = err unfinished
retain (suc fuel) store stream cutoff removed db = do
  exceeded ← bytes_exceeded store stream db
  elim (first_by (complete_in stream) by_sequence db.groups) [
    | none ↦ ok (removed, db)
    | some g ↦ elim (not exceeded && not (age_exceeded cutoff g)) [
      | true ↦ ok (removed, db)
      | false ↦ retain fuel store stream cutoff (saturating_add removed 1) (delete_group db g.key)
    ]
  ]

unfoldable pub enforce_retention : NativeStore → Database → ℕ → ℤ → Result StoreError (ℕ × Database)
unfolding retain
enforce_retention store db stream now_ms =
    retain (suc (length db.groups)) store stream (cutoff_of store now_ms) 0 db

-- The loop of `enforce_retention_at` over the streams.
unfoldable pub enforce_all :
    NativeStore → ℤ → ℕ → Database → List StreamRow → Result StoreError (ℕ × Database)
unfolding enforce_retention
enforce_all store now_ms removed db [] = ok (removed, db)
enforce_all store now_ms removed db (s ∷ rest) = do
  (more, db') ← enforce_retention store db s.stream_id now_ms
  enforce_all store now_ms (saturating_add removed more) db' rest
