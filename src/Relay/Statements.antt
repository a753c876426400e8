-- ===== src/Relay/Statements.antt =====
-- crates/relay/src/native_store.rs: the SQL statements of its transactions, as functions on the tables, with
-- the constraints of `initialize_schema`. A primary key names one row at most, so that a statement on a key
-- acts on the first row that has it. The length checks on blobs hold of the fixed-size arrays they store.
use glacialcast.Prelude.{
  ℕ, ◌+◌, Bool, true, false, not, ◌&&◌, ◌||◌, Option, none, some, List, [], ◌∷◌, Result, ok, err,
  ◌>>◌, fail_if, ltb, leb, ◌==◌, is_some, if◌then◌else◌,
}
use glacialcast.Relay.Rows.{
  StoreError, constraint, integer_overflow, StreamRow, GroupKey, GroupRow, ObjectRow, EnvelopeRow,
  Database, i64_half,
}

abbrev pub same_key : GroupKey → GroupKey → Bool
same_key a b = a.stream_id == b.stream_id && a.epoch_id == b.epoch_id && a.key_group == b.key_group

-- `SELECT ... WHERE` of a primary key.
module _ {ℓ} {A : Type ℓ} (matches : A → Bool) where
  unfoldable pub find : List A → Option A
  find [] = none
  find (row ∷ rows) = if matches row then some row else find rows

  unfoldable pub count : List A → ℕ
  count [] = 0
  count (row ∷ rows) = (if matches row then 1 else 0) + count rows

  -- `DELETE FROM ... WHERE`, of all rows and of the row of a primary key.
  unfoldable pub delete_where : List A → List A
  delete_where [] = []
  delete_where (row ∷ rows) =
      let rest = delete_where rows in if matches row then rest else row ∷ rest

  unfoldable pub delete_one : List A → List A
  delete_one [] = []
  delete_one (row ∷ rows) = if matches row then rows else row ∷ delete_one rows

  -- `UPDATE ... WHERE` of a primary key.
  unfoldable pub update_one : (A → A) → List A → List A
  update_one change [] = []
  update_one change (row ∷ rows) =
      if matches row then change row ∷ rows else row ∷ update_one change rows

  -- `SELECT ... ORDER BY ... LIMIT 1`: a matching row that no other one comes before.
  abbrev pub earlier : (A → A → Bool) → A → Option A → A
  earlier before row none = row
  earlier before row (some other) = if before other row then other else row

  unfoldable pub first_by : (A → A → Bool) → List A → Option A
  first_by before [] = none
  first_by before (row ∷ rows) =
      let rest = first_by before rows in
      if matches row then some (earlier before row rest) else rest

  -- `SELECT ... WHERE`, with the rows as they stand.
  unfoldable pub select : List A → List A
  select [] = []
  select (row ∷ rows) = let rest = select rows in if matches row then row ∷ rest else rest

-- `ORDER BY`, with rows that tie as they stand.
module _ {ℓ} {A : Type ℓ} (before : A → A → Bool) where
  unfoldable pub insert_ordered : A → List A → List A
  insert_ordered row [] = row ∷ []
  insert_ordered row (other ∷ rows) =
      if before other row then other ∷ insert_ordered row rows else row ∷ (other ∷ rows)

  unfoldable pub order_by : List A → List A
  unfolding insert_ordered
  order_by [] = []
  order_by (row ∷ rows) = insert_ordered row (order_by rows)

abbrev pub of_stream : ℕ → StreamRow → Bool
of_stream id row = row.stream_id == id

abbrev pub of_group : GroupKey → GroupRow → Bool
of_group key row = same_key row.key key

abbrev pub object_at : ℕ → ℕ → ObjectRow → Bool
object_at stream sequence row = row.group.stream_id == stream && row.sequence == sequence

abbrev pub object_in : GroupKey → ObjectRow → Bool
object_in key row = same_key row.group key

abbrev pub envelope_in : GroupKey → EnvelopeRow → Bool
envelope_in key row = same_key row.group key

abbrev pub envelope_at : GroupKey → ℕ → EnvelopeRow → Bool
envelope_at key recipient row = same_key row.group key && row.recipient_id == recipient

-- The constraints of `groups` that an update can break.
abbrev pub group_allowed : GroupRow → Bool
group_allowed g =
    leb g.first_sequence g.last_sequence
    && leb g.first_timestamp g.last_timestamp
    && ltb g.retained_bytes i64_half

unfoldable pub insert_stream : Database → StreamRow → Result StoreError Database
unfolding find
insert_stream db row = do
  fail_if (is_some (find (of_stream row.stream_id) db.streams)) constraint
  ok (record db { streams = row ∷ db.streams })

unfoldable pub insert_group : Database → GroupRow → Result StoreError Database
unfolding find
insert_group db row = do
  fail_if
      (is_some (find (of_group row.key) db.groups)
        || not (is_some (find (of_stream row.key.stream_id) db.streams))
        || row.key.key_group == 0
        || row.first_sequence == 0
        || not (group_allowed row))
      constraint
  ok (record db { groups = row ∷ db.groups })

unfoldable pub insert_object : Database → ObjectRow → Result StoreError Database
unfolding find
insert_object db row = do
  fail_if
      (is_some (find (object_at row.group.stream_id row.sequence) db.objects)
        || not (is_some (find (of_group row.group) db.groups))
        || row.sequence == 0)
      constraint
  ok (record db { objects = row ∷ db.objects })

unfoldable pub insert_envelope : Database → EnvelopeRow → Result StoreError Database
unfolding find
insert_envelope db row = do
  fail_if
      (is_some (find (envelope_at row.group row.recipient_id) db.envelopes)
        || not (is_some (find (of_group row.group) db.groups)))
      constraint
  ok (record db { envelopes = row ∷ db.envelopes })

-- `UPDATE streams SET ... WHERE stream_id = ?1`.
unfoldable pub update_stream : Database → ℕ → (StreamRow → StreamRow) → Database
unfolding update_one
update_stream db id change = record db { streams = update_one (of_stream id) change db.streams }

-- `UPDATE groups SET complete = 1`, of no row for a key that is NULL.
unfoldable pub complete_group : Database → GroupKey → Database
unfolding update_one
complete_group db key = record db {
  groups = update_one (of_group key) (λ g. record g { complete = true }) db.groups;
}

abbrev pub refused_change : (GroupRow → GroupRow) → Option GroupRow → Bool
refused_change change none = false
refused_change change (some g) = not (group_allowed (change g))

-- The other updates of `groups`, under its constraints.
unfoldable pub update_group :
    Database → GroupKey → (GroupRow → GroupRow) → Result StoreError Database
unfolding find update_one
update_group db key change = do
  fail_if (refused_change change (find (of_group key) db.groups)) constraint
  ok (record db { groups = update_one (of_group key) change db.groups })

-- `DELETE FROM groups`, which cascades to objects and envelopes.
unfoldable pub delete_group : Database → GroupKey → Database
unfolding delete_where delete_one
delete_group db key = record db {
  groups = delete_one (of_group key) db.groups;
  objects = delete_where (object_in key) db.objects;
  envelopes = delete_where (envelope_in key) db.envelopes;
}

unfoldable pub bytes_where : (GroupRow → Bool) → List GroupRow → ℕ
bytes_where matches [] = 0
bytes_where matches (g ∷ gs) = (if matches g then g.retained_bytes else 0) + bytes_where matches gs

-- `SELECT COALESCE(SUM(retained_bytes), 0)`; a sum that leaves `i64` is an error of SQLite.
unfoldable pub sum_bytes : (GroupRow → Bool) → List GroupRow → Result StoreError ℕ
unfolding bytes_where
sum_bytes matches groups =
    if ltb (bytes_where matches groups) i64_half
    then ok (bytes_where matches groups)
    else err integer_overflow
