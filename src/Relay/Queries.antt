-- ===== src/Relay/Queries.antt =====
-- crates/relay/src/native_store.rs: the methods of `NativeStore` that read. Columns are not negative, so that
-- `from_sql_u64` does not fail.
use glacialcast.Prelude.{
  ℕ, ◌+◌, min, max, Bool, ◌&&◌, ◌||◌, Option, none, some, List, [], ◌∷◌, take, Result, ok, ◌>>=◌,
  ◌>>◌, fail_if, ok_or, ltb, leb, ◌==◌, if◌then◌else◌,
}
use glacialcast.Native.Types.{IdentityPublic, NativeObject}
use glacialcast.Native.EnvelopeTypes.{KeyEnvelope}
use glacialcast.Native.External.{External}
use glacialcast.Native.Object.{decode_object}
use glacialcast.Native.Envelope.{decode_envelope}
use glacialcast.Relay.Rows.{
  StoreError, SubscriptionStart, invalid_object, invalid_envelope, no_descriptor, list_limit,
  invalid_lookup, missing_row, NativeRetainedBounds, NativeStreamSummary, StreamRow, GroupRow,
  ObjectRow, EnvelopeRow, Database, max_list_objects, to_sql_u64,
}
use glacialcast.Relay.Statements.{
  find, select, order_by, first_by, of_stream, of_group, object_at, envelope_at, sum_bytes,
}
use glacialcast.Relay.Retention.{in_stream, complete_in, by_sequence}
use glacialcast.Relay.Groups.{in_context, descriptor_in}
use glacialcast.Relay.Upkeep.{stream_before}

unfoldable pub high_water : Database → ℕ → Option ℕ
unfolding find
high_water db stream = elim (find (of_stream stream) db.streams) [
  | none ↦ none
  | some row ↦ some row.high_water
]

-- `MIN` and `MAX` over the complete groups.
abbrev pub widen : GroupRow → Option NativeRetainedBounds → NativeRetainedBounds
widen g none = record {
  oldest_sequence = g.first_sequence;
  newest_sequence = g.last_sequence;
  oldest_timestamp = g.first_timestamp;
  newest_timestamp = g.last_timestamp;
}
widen g (some b) = record {
  oldest_sequence = min g.first_sequence b.oldest_sequence;
  newest_sequence = max g.last_sequence b.newest_sequence;
  oldest_timestamp = min g.first_timestamp b.oldest_timestamp;
  newest_timestamp = max g.last_timestamp b.newest_timestamp;
}

unfoldable pub bounds_of : ℕ → List GroupRow → Option NativeRetainedBounds
bounds_of stream [] = none
bounds_of stream (g ∷ gs) =
    let rest = bounds_of stream gs in if complete_in stream g then some (widen g rest) else rest

unfoldable pub retained_bounds : Database → ℕ → Option NativeRetainedBounds
unfolding bounds_of
retained_bounds db stream = bounds_of stream db.groups

-- The orders of the anchor's queries.
abbrev pub newest_first : GroupRow → GroupRow → Bool
newest_first a b = ltb b.first_sequence a.first_sequence

abbrev pub latest_first : GroupRow → GroupRow → Bool
latest_first a b =
    ltb b.first_timestamp a.first_timestamp
    || a.first_timestamp == b.first_timestamp && ltb b.first_sequence a.first_sequence

abbrev pub starts_by_sequence : ℕ → ℕ → GroupRow → Bool
starts_by_sequence stream n g = g.key.stream_id == stream && leb g.first_sequence n

abbrev pub starts_by_timestamp : ℕ → ℕ → GroupRow → Bool
starts_by_timestamp stream n g = g.key.stream_id == stream && leb g.first_timestamp n

unfoldable pub select_anchor :
    Database → ℕ → SubscriptionStart → Result StoreError (Option GroupRow)
unfolding first_by
select_anchor db stream SubscriptionStart.live =
    ok (first_by (in_stream stream) newest_first db.groups)
select_anchor db stream SubscriptionStart.oldest_retained =
    ok (first_by (complete_in stream) by_sequence db.groups)
select_anchor db stream (SubscriptionStart.sequence n) = do
  bound ← to_sql_u64 n
  ok (first_by (starts_by_sequence stream bound) newest_first db.groups)
select_anchor db stream (SubscriptionStart.timestamp n) = do
  bound ← to_sql_u64 n
  ok (first_by (starts_by_timestamp stream bound) latest_first db.groups)

abbrev pub anchor_of : ℕ → Option GroupRow → ℕ
anchor_of next_live none = next_live
anchor_of next_live (some g) = g.first_sequence

-- The high-water mark is below 2 ^ 63, so that its successor is a `u64`.
unfoldable pub subscription_anchor : Database → ℕ → SubscriptionStart → Result StoreError ℕ
unfolding select_anchor
subscription_anchor db stream start = do
  row ← ok_or (find (of_stream stream) db.streams) missing_row
  selected ← select_anchor db stream start
  ok (anchor_of (row.high_water + 1) selected)

abbrev pub after : ℕ → ℕ → ObjectRow → Bool
after stream sequence row = row.group.stream_id == stream && ltb sequence row.sequence

abbrev pub object_before : ObjectRow → ObjectRow → Bool
object_before a b = ltb a.sequence b.sequence

-- An envelope with the first sequence of its group.
abbrev pub joined : Database → EnvelopeRow → List (EnvelopeRow × ℕ) → List (EnvelopeRow × ℕ)
joined db row rest = elim (find (of_group row.group) db.groups) [
  | none ↦ rest
  | some g ↦ (row, g.first_sequence) ∷ rest
]

unfoldable pub join_groups : Database → List EnvelopeRow → List (EnvelopeRow × ℕ)
join_groups db [] = []
join_groups db (row ∷ rows) = joined db row (join_groups db rows)

abbrev pub newest_group_first : EnvelopeRow × ℕ → EnvelopeRow × ℕ → Bool
newest_group_first a b = ltb b.1 a.1

abbrev pub addressed_to : ℕ → ℕ → EnvelopeRow → Bool
addressed_to stream recipient row = row.group.stream_id == stream && row.recipient_id == recipient

module _ (ext : External) where
  unfoldable pub decode_objects :
      IdentityPublic → List ObjectRow → Result StoreError (List NativeObject)
  decode_objects publisher [] = ok []
  decode_objects publisher (row ∷ rows) = do
    o ← in_context invalid_object (decode_object ext row.object publisher)
    os ← decode_objects publisher rows
    ok (o ∷ os)

  unfoldable pub decode_envelopes :
      IdentityPublic → List (EnvelopeRow × ℕ) → Result StoreError (List KeyEnvelope)
  decode_envelopes publisher [] = ok []
  decode_envelopes publisher ((row, n) ∷ rows) = do
    e ← in_context invalid_envelope (decode_envelope ext row.envelope publisher)
    es ← decode_envelopes publisher rows
    ok (e ∷ es)

  module _ (db : Database) where
    unfoldable pub get_object : ℕ → ℕ → Result StoreError (Option NativeObject)
    get_object stream sequence = do
      found ← descriptor_in ext db stream
      elim found [
        | none ↦ ok none
        | some descriptor ↦ to_sql_u64 sequence >>= λ bound.
            elim (find (object_at stream bound) db.objects) [
              | none ↦ ok none
              | some row ↦
                  in_context invalid_object (decode_object ext row.object descriptor.body.publisher)
                  >>= λ o. ok (some o)
            ]
      ]

    unfoldable pub list_objects : ℕ → ℕ → ℕ → Result StoreError (List NativeObject)
    unfolding decode_objects
    list_objects stream after_sequence limit = do
      fail_if (limit == 0 || ltb max_list_objects limit) list_limit
      found ← descriptor_in ext db stream
      descriptor ← ok_or found no_descriptor
      bound ← to_sql_u64 after_sequence
      decode_objects descriptor.body.publisher
          (take limit (order_by object_before (select (after stream bound) db.objects)))

    unfoldable pub list_envelopes : ℕ → ℕ → ℕ → Result StoreError (List KeyEnvelope)
    unfolding decode_envelopes join_groups
    list_envelopes stream recipient limit = do
      fail_if (recipient == 0 || limit == 0 || ltb max_list_objects limit) invalid_lookup
      found ← descriptor_in ext db stream
      descriptor ← ok_or found no_descriptor
      decode_envelopes descriptor.body.publisher (
          take limit (
            order_by newest_group_first
              (join_groups db (select (addressed_to stream recipient) db.envelopes))))

    unfoldable pub get_envelope : ℕ → ℕ → ℕ → ℕ → Result StoreError (Option KeyEnvelope)
    get_envelope stream epoch key_group recipient = do
      fail_if (stream == 0 || epoch == 0 || key_group == 0 || recipient == 0) invalid_lookup
      found ← descriptor_in ext db stream
      descriptor ← ok_or found no_descriptor
      bound ← to_sql_u64 key_group
      elim (find
          (envelope_at (record { stream_id = stream; epoch_id = epoch; key_group = bound })
            recipient)
          db.envelopes) [
            | none ↦ ok none
            | some row ↦
                in_context invalid_envelope
                  (decode_envelope ext row.envelope descriptor.body.publisher)
                >>= λ e. ok (some e)
          ]

unfoldable pub summaries_of :
    Database → List StreamRow → Result StoreError (List (ℕ × NativeStreamSummary))
summaries_of db [] = ok []
summaries_of db (row ∷ rows) = do
  retained_bytes ← sum_bytes (in_stream row.stream_id) db.groups
  rest ← summaries_of db rows
  ok (
      (
        row.stream_id,
        record {
          publisher_id = row.publisher_id;
          high_water = row.high_water;
          retained_bytes = retained_bytes;
          retained = retained_bounds db row.stream_id;
        },
      )
      ∷ rest)

unfoldable pub summaries : Database → Result StoreError (List (ℕ × NativeStreamSummary))
unfolding summaries_of order_by
summaries db = summaries_of db (order_by stream_before db.streams)
