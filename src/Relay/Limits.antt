-- ===== src/Relay/Limits.antt =====
-- crates/relay/src/native_store.rs: the byte accounting of groups under histories of calls.
use glacialcast.Prelude.{
  ℕ, arith, ◌+◌, ◌≡◌, refl, ap, subst, inl, inr, Bool, not, Option, none, some, List, [], ◌∷◌,
  Bytes, length, ℤ, Result, ok, err, fail_if, ok_or, ◌==◌, same_bytes, Option-cases, >>=-eq-ok,
  ok-injective,
}
use glacialcast.Native.Types.{IdentityPublic, NativeObject, StreamDescriptor}
use glacialcast.Native.EnvelopeTypes.{KeyEnvelope}
use glacialcast.Native.External.{External}
use glacialcast.Native.Identity.{fingerprint}
use glacialcast.Native.Object.{validate_shape, verify_public, encode_object}
use glacialcast.Native.Descriptor.{encode_descriptor}
use glacialcast.Native.Envelope.{validate_envelope_shape, verify_envelope, encode_envelope}
use glacialcast.Relay.Rows.{
  StoreError, invalid_object, invalid_descriptor, invalid_identity, invalid_envelope, no_descriptor,
  conflicting_retry, key_contradicted, NativeStore, NativeCommit, GroupItemKind, StreamRow,
  GroupKey, GroupRow, ObjectRow, Database, saturating_add, to_sql_u64,
}
use glacialcast.Relay.Statements.{
  find, order_by, of_stream, of_group, object_at, envelope_at, insert_stream, insert_envelope,
  update_stream, update_group,
}
use glacialcast.Relay.Groups.{in_context, with_bytes, descriptor_in}
use glacialcast.Relay.Retention.{check_group_growth, enforce_retention, enforce_all}
use glacialcast.Relay.Store.{put_row, put_descriptor, store_encoded, store_object}
use glacialcast.Relay.Upkeep.{
  append_envelope, store_in_group, store_envelope, envelope_key, enforce_retention_at, finalize_row,
  finalize_stream, stream_before,
}
use glacialcast.Relay.Appended.{append_object-Appended, to_sql_u64_inv}
use glacialcast.Relay.Quota.{WithinQuota}
use glacialcast.Relay.Bounded.{
  unchanged-WithinQuota, insert_envelope-groups, complete_group-WithinQuota,
  update_group-WithinQuota, enforce_retention-WithinQuota, Appended-WithinQuota, durable,
}
use glacialcast.Relay.Sequences.{
  Request, put, store, share, expire, finalize, after_result, after_put, call, calls,
}

module _ (ext : External) (limits : NativeStore) where
  store_encoded-WithinQuota :
      (db db' : Database) (o : NativeObject) (publisher : IdentityPublic) (encoded : Bytes)
      (sequence : ℕ) (now : ℤ) (commit : NativeCommit) (found : Option ObjectRow)
      → WithinQuota limits db
      → store_encoded ext limits db o publisher encoded sequence now found ≡ ok (commit, db')
      → WithinQuota limits db'
  unfolding store_encoded
  store_encoded-WithinQuota db db' o publisher encoded sequence now commit (some row) q h =
      let (u, e, k) =
        >>=-eq-ok (fail_if (not (same_bytes row.object encoded)) conflicting_retry) _ h in
      subst (λ (out : NativeCommit × Database). WithinQuota limits out.1) (ok-injective k) q
  store_encoded-WithinQuota db db' o publisher encoded sequence now commit none q h =
      Appended-WithinQuota ext limits db db' o publisher encoded sequence now commit
        (append_object-Appended ext limits db db' o publisher encoded sequence now commit h) q

  store_object-WithinQuota :
      (db db' : Database) (o : NativeObject) (now : ℤ) (commit : NativeCommit)
      → WithinQuota limits db
      → store_object ext limits db o now ≡ ok (commit, db')
      → WithinQuota limits db'
  unfolding store_object
  store_object-WithinQuota db db' o now commit q h =
      let (u1, e1, k1) = >>=-eq-ok (in_context invalid_object (validate_shape ext o)) _ h in
      let (found, e2, k2) = >>=-eq-ok (descriptor_in ext db o.header.stream_id) _ k1 in
      let (d, e3, k3) = >>=-eq-ok (ok_or found no_descriptor) _ k2 in
      let (u4, e4, k4) =
        >>=-eq-ok (in_context invalid_object (verify_public ext o d.body.publisher)) _ k3 in
      let (encoded, e5, k5) =
        >>=-eq-ok (in_context invalid_object (encode_object ext o d.body.publisher)) _ k4 in
      let (sequence, e6, k6) = >>=-eq-ok {E = StoreError} (to_sql_u64 o.header.sequence) _ k5 in
      store_encoded-WithinQuota db db' o d.body.publisher encoded sequence now commit
        (find (object_at o.header.stream_id sequence) db.objects) q k6

  append_envelope-WithinQuota :
      (db db' : Database) (e : KeyEnvelope) (publisher : IdentityPublic) (encoded : Bytes)
      (key : GroupKey) (now : ℤ) (b : Bool)
      → WithinQuota limits db
      → append_envelope ext limits db e publisher encoded key now ≡ ok (b, db')
      → WithinQuota limits db'
  unfolding append_envelope
  append_envelope-WithinQuota db db' e publisher encoded key now b q h =
      let (id, e1, k1) = >>=-eq-ok (in_context invalid_identity (fingerprint ext publisher)) _ h in
      let (u2, e2, k2) =
        >>=-eq-ok (check_group_growth limits db id key (length encoded) GroupItemKind.envelope) _
          k1 in
      let (written, e3, k3) =
        >>=-eq-ok
          (insert_envelope db (record {
            group = key;
            recipient_id = e.header.recipient_id;
            key_id = e.header.key_id;
            received_at_ms = now;
            envelope = encoded;
          }))
          _ k2 in
      let (bytes, e4, k4) = >>=-eq-ok {E = StoreError} (to_sql_u64 (length encoded)) _ k3 in
      let (grown, e5, k5) = >>=-eq-ok (update_group written key (with_bytes bytes)) _ k4 in
      let ((evicted, kept), e6, k6) =
        >>=-eq-ok (enforce_retention limits grown e.header.stream_id now) _ k5 in
      let size : bytes ≡ length encoded = to_sql_u64_inv ext limits (length encoded) e4 in
      subst (λ (out : Bool × Database). WithinQuota limits out.1) (ok-injective k6)
        (enforce_retention-WithinQuota limits grown kept e.header.stream_id now evicted
          (update_group-WithinQuota limits db written grown id key (with_bytes bytes)
            (length encoded) GroupItemKind.envelope q (insert_envelope-groups db written _ e3)
            (durable (length encoded) e4) e2 (λ r. ap (λ (n : ℕ). r.retained_bytes + n) size) e5)
          e6)

  store_in_group-WithinQuota :
      (db db' : Database) (e : KeyEnvelope) (publisher : IdentityPublic) (encoded : Bytes)
      (key : GroupKey) (now : ℤ) (b : Bool) (found : Option GroupRow)
      → WithinQuota limits db
      → store_in_group ext limits db e publisher encoded key now found ≡ ok (b, db')
      → WithinQuota limits db'
  unfolding store_in_group
  store_in_group-WithinQuota db db' e publisher encoded key now b none q h =
      subst (λ (out : Bool × Database). WithinQuota limits out.1) (ok-injective h) q
  store_in_group-WithinQuota db db' e publisher encoded key now b (some group) q h =
      let (u, e1, k1) =
        >>=-eq-ok (fail_if (not (group.key_id == e.header.key_id)) key_contradicted) _ h in
      elim (Option-cases (find (envelope_at key e.header.recipient_id) db.envelopes)) [
        | inl new ↦
            append_envelope-WithinQuota db db' e publisher encoded key now b q (rw new at k1)
        | inr (row, old) ↦
            subst (λ (out : Bool × Database). WithinQuota limits out.1)
              (ok-injective (rw old at k1)) q
      ]

  store_envelope-WithinQuota :
      (db db' : Database) (e : KeyEnvelope) (now : ℤ) (b : Bool)
      → WithinQuota limits db
      → store_envelope ext limits db e now ≡ ok (b, db')
      → WithinQuota limits db'
  unfolding store_envelope
  store_envelope-WithinQuota db db' e now b q h =
      let (u1, e1, k1) = >>=-eq-ok (in_context invalid_envelope (validate_envelope_shape e)) _ h in
      let (found, e2, k2) = >>=-eq-ok (descriptor_in ext db e.header.stream_id) _ k1 in
      let (d, e3, k3) = >>=-eq-ok (ok_or found no_descriptor) _ k2 in
      let (u4, e4, k4) =
        >>=-eq-ok (in_context invalid_envelope (verify_envelope ext e d.body.publisher)) _ k3 in
      let (encoded, e5, k5) =
        >>=-eq-ok (in_context invalid_envelope (encode_envelope ext e d.body.publisher)) _ k4 in
      let (group, e6, k6) = >>=-eq-ok {E = StoreError} (to_sql_u64 e.header.key_group_id) _ k5 in
      store_in_group-WithinQuota db db' e d.body.publisher encoded (envelope_key e group) now b
        (find (of_group (envelope_key e group)) db.groups) q k6

  enforce_all-WithinQuota :
      (now : ℤ) (removed n : ℕ) (db db' : Database) (rows : List StreamRow)
      → WithinQuota limits db
      → enforce_all limits now removed db rows ≡ ok (n, db')
      → WithinQuota limits db'
  unfolding enforce_all
  enforce_all-WithinQuota now removed n db db' [] q h =
      subst (λ (out : ℕ × Database). WithinQuota limits out.1) (ok-injective h) q
  enforce_all-WithinQuota now removed n db db' (row ∷ rows) q h =
      let ((more, next), e, k) = >>=-eq-ok (enforce_retention limits db row.stream_id now) _ h in
      enforce_all-WithinQuota now (saturating_add removed more) n next db' rows
        (enforce_retention-WithinQuota limits db next row.stream_id now more q e) k

  put_row-groups :
      (db db' : Database) (stream publisher : ℕ) (encoded : Bytes) (found : Option StreamRow)
      → put_row ext limits db stream publisher encoded found ≡ ok db'
      → db'.groups ≡ db.groups
  unfolding put_row update_stream insert_stream
  put_row-groups db db' stream publisher encoded none h = ground arith
  put_row-groups db db' stream publisher encoded (some row) h = ground arith

  put_descriptor-groups :
      (db db' : Database) (d : StreamDescriptor)
      → put_descriptor ext limits db d ≡ ok db'
      → db'.groups ≡ db.groups
  unfolding put_descriptor
  put_descriptor-groups db db' d h =
      let (encoded, e1, k1) =
        >>=-eq-ok (in_context invalid_descriptor (encode_descriptor ext d)) _ h in
      let (publisher, e2, k2) =
        >>=-eq-ok (in_context invalid_identity (fingerprint ext d.body.publisher)) _ k1 in
      put_row-groups db db' d.body.stream_id publisher encoded _ k2

  finalize_row-WithinQuota :
      (db : Database) (s : ℕ) (row : StreamRow) (epoch group : Option ℕ)
      → row.active_epoch ≡ epoch
      → row.active_group ≡ group
      → WithinQuota limits db
      → WithinQuota limits (finalize_row db s (some row))
  unfolding update_stream
  finalize_row-WithinQuota db s row none group e g q = rw e q
  finalize_row-WithinQuota db s row (some epoch) none e g q = rw (e, g) q
  finalize_row-WithinQuota db s row (some epoch) (some group) e g q =
      rw (e, g) (unchanged-WithinQuota limits _ _ refl (complete_group-WithinQuota limits db _ q))

  finalize_stream-WithinQuota :
      (db : Database) (s : ℕ) → WithinQuota limits db → WithinQuota limits (finalize_stream db s)
  unfolding finalize_stream
  finalize_stream-WithinQuota db s q = elim (Option-cases (find (of_stream s) db.streams)) [
    | inl missing ↦ rw missing q
    | inr (row, there) ↦
        rw there (finalize_row-WithinQuota db s row row.active_epoch row.active_group refl refl q)
  ]

  after_result-WithinQuota :
      {A : Type 0} (db : Database) (m : Result StoreError (A × Database))
      → WithinQuota limits db
      → ((a : A) (db' : Database) → m ≡ ok (a, db') → WithinQuota limits db')
      → WithinQuota limits (after_result db m)
  after_result-WithinQuota db (ok (a, db')) q keep = keep a db' refl
  after_result-WithinQuota db (err e) q keep = q

  after_put-WithinQuota :
      (db : Database) (m : Result StoreError Database)
      → WithinQuota limits db
      → ((db' : Database) → m ≡ ok db' → WithinQuota limits db')
      → WithinQuota limits (after_put db m)
  after_put-WithinQuota db (ok db') q keep = keep db' refl
  after_put-WithinQuota db (err e) q keep = q

  call-WithinQuota :
      (db : Database) (r : Request)
      → WithinQuota limits db
      → WithinQuota limits (call ext limits db r)
  unfolding call enforce_retention_at
  call-WithinQuota db (put d) q =
      after_put-WithinQuota db (put_descriptor ext limits db d) q
        (λ db' h. unchanged-WithinQuota limits db db' (put_descriptor-groups db db' d h) q)
  call-WithinQuota db (store o now) q =
      after_result-WithinQuota db (store_object ext limits db o now) q
        (λ commit db' h. store_object-WithinQuota db db' o now commit q h)
  call-WithinQuota db (share e now) q =
      after_result-WithinQuota db (store_envelope ext limits db e now) q
        (λ b db' h. store_envelope-WithinQuota db db' e now b q h)
  call-WithinQuota db (expire now) q =
      after_result-WithinQuota db (enforce_retention_at limits db now) q
        (λ n db' h. enforce_all-WithinQuota now 0 n db db' (order_by stream_before db.streams) q h)
  call-WithinQuota db (finalize s) q = finalize_stream-WithinQuota db s q

  -- If the counted bytes of the store are at most max_total_bytes in total and at most
  -- max_group_bytes in each group, they are so after any history of calls.
  pub calls-WithinQuota :
      (db : Database) (rs : List Request)
      → WithinQuota limits db
      → WithinQuota limits (calls ext limits db rs)
  unfolding calls
  calls-WithinQuota db [] q = q
  calls-WithinQuota db (r ∷ rs) q =
      calls-WithinQuota (call ext limits db r) rs (call-WithinQuota db r q)
