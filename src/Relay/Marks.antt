-- ===== src/Relay/Marks.antt =====
-- crates/relay/src/native_store.rs: the high-water marks under the calls that store no object.
use glacialcast.Prelude.{
  ℕ, ◌≡◌, refl, sym, ap, ◌∙◌, subst, inl, inr, Bool, not, Option, none, some, List, [], ◌∷◌, length,
  ℤ, ok, fail_if, ok_or, leb, ◌||◌, ◌==◌, ==_iff, same_bytes, Bool-cases, Option-cases, >>=-eq-ok,
  ok-injective, is_some, Bytes,
}
use glacialcast.Native.Types.{StreamDescriptor, IdentityPublic}
use glacialcast.Native.EnvelopeTypes.{KeyEnvelope}
use glacialcast.Native.External.{External}
use glacialcast.Native.Identity.{fingerprint}
use glacialcast.Native.Descriptor.{encode_descriptor}
use glacialcast.Native.Envelope.{validate_envelope_shape, verify_envelope, encode_envelope}
use glacialcast.Native.Inversions.{not_refused}
use glacialcast.Relay.Rows.{
  StoreError, invalid_descriptor, invalid_identity, invalid_envelope, no_descriptor,
  other_publisher, descriptor_limit, key_contradicted, constraint, NativeStore, GroupItemKind,
  StreamRow, GroupKey, GroupRow, Database, saturating_add, to_sql_u64,
}
use glacialcast.Relay.Statements.{
  find, count, of_stream, of_group, envelope_at, insert_stream, insert_envelope, update_stream,
  update_group, complete_group,
}
use glacialcast.Relay.Groups.{in_context, with_bytes, descriptor_in}
use glacialcast.Relay.Retention.{check_group_growth, enforce_retention, enforce_all}
use glacialcast.Relay.Store.{put_row, put_descriptor}
use glacialcast.Relay.Upkeep.{
  append_envelope, store_in_group, store_envelope, envelope_key, finalize_row, finalize_stream,
}
use glacialcast.Relay.Streams.{
  mark, mark-update_same, mark-missing, insert_envelope-streams, update_group-streams,
  enforce_retention-streams,
}

abbrev pub SameMark : ℕ → Database → Database → Type 0
SameMark stream db db' = mark db'.streams stream ≡ mark db.streams stream

-- The calls that do not store an object leave the marks.
insert_stream-mark :
    (db db' : Database) (row : StreamRow) (stream : ℕ)
    → row.high_water ≡ 0
    → insert_stream db row ≡ ok db'
    → SameMark stream db db'
unfolding insert_stream mark
insert_stream-mark db db' row stream zero_mark h =
    let (u, e, k) =
      >>=-eq-ok (fail_if (is_some (find (of_stream row.stream_id) db.streams)) constraint) _ h in
    let missing = mark-missing row.stream_id db.streams (not_refused _ constraint e) in
    subst (λ (d : Database). mark d.streams stream ≡ mark db.streams stream) (ok-injective k)
      (elim (Bool-cases (row.stream_id == stream)) [
        | inl t ↦ rw t (
            zero_mark
            ∙ sym missing
            ∙ ap (λ (s : ℕ). mark db.streams s) ((==_iff row.stream_id stream).0 t))
        | inr f ↦ rw f refl
      ])

pub enforce_all-streams :
    (limits : NativeStore) (now : ℤ) (removed n : ℕ) (db db' : Database) (rows : List StreamRow)
    → enforce_all limits now removed db rows ≡ ok (n, db')
    → db'.streams ≡ db.streams
unfolding enforce_all
enforce_all-streams limits now removed n db db' [] h =
    ap (λ (out : ℕ × Database). out.1.streams) (sym (ok-injective h))
enforce_all-streams limits now removed n db db' (row ∷ rows) h =
    let ((more, next), e, k) = >>=-eq-ok (enforce_retention limits db row.stream_id now) _ h in
    enforce_all-streams limits now (saturating_add removed more) n next db' rows k
    ∙ enforce_retention-streams limits db next row.stream_id now more e

pub finalize_stream-mark :
    (db : Database) (s stream : ℕ) → SameMark stream db (finalize_stream db s)
unfolding finalize_stream update_stream complete_group
finalize_stream-mark db s stream = row_cases (find (of_stream s) db.streams)
  where
    group_cases :
        (row : StreamRow) (epoch group : Option ℕ)
        → row.active_epoch ≡ epoch
        → row.active_group ≡ group
        → SameMark stream db (finalize_row db s (some row))
    group_cases row none group e g = rw e refl
    group_cases row (some epoch) none e g = rw (e, g) refl
    group_cases row (some epoch) (some group) e g =
        rw (e, g)
          (mark-update_same (λ r. record r { active_epoch = none; active_group = none }) s stream
            db.streams (λ r. refl) (λ r. refl))

    row_cases : (found : Option StreamRow) → SameMark stream db (finalize_row db s found)
    row_cases none = refl
    row_cases (some row) = group_cases row row.active_epoch row.active_group refl refl

pub put_descriptor-mark :
    (ext : External) (limits : NativeStore) (db db' : Database) (d : StreamDescriptor) (stream : ℕ)
    → put_descriptor ext limits db d ≡ ok db'
    → SameMark stream db db'
unfolding put_descriptor put_row update_stream
put_descriptor-mark ext limits db db' d stream h =
    let (encoded, e1, k1) =
      >>=-eq-ok (in_context invalid_descriptor (encode_descriptor ext d)) _ h in
    let (publisher, e2, k2) =
      >>=-eq-ok (in_context invalid_identity (fingerprint ext d.body.publisher)) _ k1 in
    put_cases encoded publisher (find (of_stream d.body.stream_id) db.streams) k2
  where
    put_cases :
        (encoded : Bytes) (publisher : ℕ) (found : Option StreamRow)
        → put_row ext limits db d.body.stream_id publisher encoded found ≡ ok db'
        → SameMark stream db db'
    put_cases encoded publisher (some row) k =
        let (u, e, k1) =
          >>=-eq-ok (fail_if (not (row.publisher_id == publisher)) other_publisher) _ k in
        elim (Bool-cases (same_bytes row.descriptor encoded)) [
          | inl t ↦ ap (λ (x : Database). mark x.streams stream) (sym (ok-injective (rw t at k1)))
          | inr f ↦
              ap (λ (x : Database). mark x.streams stream) (sym (ok-injective (rw f at k1)))
              ∙ mark-update_same (λ s. record s { descriptor = encoded }) d.body.stream_id stream
                  db.streams (λ r. refl) (λ r. refl)
        ]
    put_cases encoded publisher none k =
        let (u, e, k1) =
          >>=-eq-ok
            (fail_if
              (leb limits.limits.max_streams (length db.streams)
                || leb limits.limits.max_streams_per_publisher
                    (count (λ s. s.publisher_id == publisher) db.streams))
              descriptor_limit)
            _ k in
        insert_stream-mark db db' _ stream refl k1

append_envelope-streams :
    (ext : External) (limits : NativeStore) (db db' : Database) (e : KeyEnvelope)
    (publisher : IdentityPublic) (encoded : Bytes) (key : GroupKey) (now : ℤ) (b : Bool)
    → append_envelope ext limits db e publisher encoded key now ≡ ok (b, db')
    → db'.streams ≡ db.streams
unfolding append_envelope
append_envelope-streams ext limits db db' e publisher encoded key now b h =
    let (id, e1, k1) = >>=-eq-ok (in_context invalid_identity (fingerprint ext publisher)) _ h in
    let (u2, e2, k2) =
      >>=-eq-ok (check_group_growth limits db id key (length encoded) GroupItemKind.envelope) _
        k1 in
    let (written, e3, k3) =
      >>=-eq-ok
        (insert_envelope db (record {
          group = key;
          recipient_id = e.header.recipient_id;
          key_id = e.header.key_id;
          received_at_ms = now;
          envelope = encoded;
        }))
        _ k2 in
    let (bytes, e4, k4) = >>=-eq-ok {E = StoreError} (to_sql_u64 (length encoded)) _ k3 in
    let (grown, e5, k5) = >>=-eq-ok (update_group written key (with_bytes bytes)) _ k4 in
    let ((evicted, kept), e6, k6) =
      >>=-eq-ok (enforce_retention limits grown e.header.stream_id now) _ k5 in
    ap (λ (out : Bool × Database). out.1.streams) (sym (ok-injective k6))
    ∙ enforce_retention-streams limits grown kept e.header.stream_id now evicted e6
    ∙ update_group-streams written grown key _ e5
    ∙ insert_envelope-streams db written _ e3

store_in_group-streams :
    (ext : External) (limits : NativeStore) (db db' : Database) (e : KeyEnvelope)
    (publisher : IdentityPublic) (encoded : Bytes) (key : GroupKey) (now : ℤ) (b : Bool)
    (found : Option GroupRow)
    → store_in_group ext limits db e publisher encoded key now found ≡ ok (b, db')
    → db'.streams ≡ db.streams
unfolding store_in_group
store_in_group-streams ext limits db db' e publisher encoded key now b none h =
    ap (λ (out : Bool × Database). out.1.streams) (sym (ok-injective h))
store_in_group-streams ext limits db db' e publisher encoded key now b (some group) h =
    let (u, e1, k1) =
      >>=-eq-ok (fail_if (not (group.key_id == e.header.key_id)) key_contradicted) _ h in
    elim (Option-cases (find (envelope_at key e.header.recipient_id) db.envelopes)) [
      | inl new ↦
          append_envelope-streams ext limits db db' e publisher encoded key now b (rw new at k1)
      | inr (row, old) ↦
          ap (λ (out : Bool × Database). out.1.streams) (sym (ok-injective (rw old at k1)))
    ]

pub store_envelope-streams :
    (ext : External) (limits : NativeStore) (db db' : Database) (e : KeyEnvelope) (now : ℤ)
    (b : Bool)
    → store_envelope ext limits db e now ≡ ok (b, db')
    → db'.streams ≡ db.streams
unfolding store_envelope
store_envelope-streams ext limits db db' e now b h =
    let (u1, e1, k1) = >>=-eq-ok (in_context invalid_envelope (validate_envelope_shape e)) _ h in
    let (found, e2, k2) = >>=-eq-ok (descriptor_in ext db e.header.stream_id) _ k1 in
    let (d, e3, k3) = >>=-eq-ok (ok_or found no_descriptor) _ k2 in
    let (u4, e4, k4) =
      >>=-eq-ok (in_context invalid_envelope (verify_envelope ext e d.body.publisher)) _ k3 in
    let (encoded, e5, k5) =
      >>=-eq-ok (in_context invalid_envelope (encode_envelope ext e d.body.publisher)) _ k4 in
    let (group, e6, k6) = >>=-eq-ok {E = StoreError} (to_sql_u64 e.header.key_group_id) _ k5 in
    store_in_group-streams ext limits db db' e d.body.publisher encoded (envelope_key e group) now b
      (find (of_group (envelope_key e group)) db.groups) k6
