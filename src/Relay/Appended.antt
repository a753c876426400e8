-- ===== src/Relay/Appended.antt =====
-- crates/relay/src/native_store.rs: the steps of a `store_object` that appends an object, as facts about the
-- tables between them.
use glacialcast.Prelude.{
  ℕ, ◌+◌, ◌≡◌, sym, ap, ◌∙◌, subst, Bool, true, false, not, some, Bytes, length, ℤ, arith, ◌-◌, ok,
  fail_if, ok_or, leb, ◌==◌, >>=-eq-ok, ok-injective, ==_iff,
}
use glacialcast.Native.Types.{IdentityPublic, NativeObject}
use glacialcast.Native.External.{External}
use glacialcast.Native.Identity.{fingerprint}
use glacialcast.Native.Inversions.{not_refused, ok_or_inv}
use glacialcast.Relay.Rows.{
  StoreError, invalid_identity, sequence_exhausted, out_of_order, missing_row, GroupItemKind,
  NativeStore, NativeCommit, StreamRow, Database, i64_half, to_sql_u64,
}
use glacialcast.Relay.Statements.{find, of_stream, insert_object, update_stream, update_group}
use glacialcast.Relay.Retention.{check_group_growth, enforce_retention}
use glacialcast.Relay.Groups.{in_context, key_of, enter_group, extended}
use glacialcast.Relay.Store.{append_object}

pub true_of_unnegated : (t : Bool) → not t ≡ false → t ≡ true
true_of_unnegated t h = ground arith

module _ (ext : External) (store : NativeStore) where
  pub record Appended (db : Database) (o : NativeObject) (publisher : IdentityPublic)
      (encoded : Bytes) (sequence : ℕ) (now : ℤ) (commit : NativeCommit) (db' : Database)
      : Type 0 where
    pub row : StreamRow
    pub group : ℕ
    pub entered : Database
    pub publisher_id : ℕ
    pub written : Database
    pub timestamp : ℕ
    pub grown : Database
    pub evicted : ℕ
    pub there : find (of_stream o.header.stream_id) db.streams ≡ some row
    pub next : sequence ≡ row.high_water + 1
    pub grouped : group ≡ o.header.key_group
    pub enters : enter_group db row o sequence group now ≡ ok entered
    pub named : in_context invalid_identity (fingerprint ext publisher) ≡ ok publisher_id
    pub checked :
        check_group_growth store entered publisher_id
          (key_of o group)
          (length encoded)
          GroupItemKind.object
        ≡ ok tt
    pub writes :
        insert_object entered (record {
          group = key_of o group;
          sequence = sequence;
          received_at_ms = now;
          object = encoded;
        })
        ≡ ok written
    pub fits : to_sql_u64 (length encoded) ≡ ok (length encoded)
    pub grows :
        update_group written (key_of o group) (extended sequence timestamp now (length encoded))
        ≡ ok grown
    pub kept :
        enforce_retention store
          (update_stream grown o.header.stream_id (λ s. record s { high_water = sequence }))
          o.header.stream_id
          now
        ≡ ok (evicted, db')
    pub answers : commit ≡ record {
      committed_through = o.header.sequence;
      evicted_groups = evicted;
      inserted = true;
    }

  pub to_sql_u64_inv : (n : ℕ) {m : ℕ} → to_sql_u64 n ≡ ok m → m ≡ n
  to_sql_u64_inv n h = ground arith

  pub append_object-Appended :
      (db db' : Database) (o : NativeObject) (publisher : IdentityPublic) (encoded : Bytes)
      (sequence : ℕ) (now : ℤ) (commit : NativeCommit)
      → append_object ext store db o publisher encoded sequence now ≡ ok (commit, db')
      → Appended db o publisher encoded sequence now commit db'
  unfolding append_object
  append_object-Appended db db' o publisher encoded sequence now commit h =
      let stream = o.header.stream_id in
      let (row, e1, k1) = >>=-eq-ok (ok_or (find (of_stream stream) db.streams) missing_row) _ h in
      let (u2, e2, k2) =
        >>=-eq-ok (fail_if (leb (i64_half - 1) row.high_water) sequence_exhausted) _ k1 in
      let (u3, e3, k3) =
        >>=-eq-ok (fail_if (not (sequence == row.high_water + 1)) out_of_order) _ k2 in
      let (group, e4, k4) = >>=-eq-ok {E = StoreError} (to_sql_u64 o.header.key_group) _ k3 in
      let (entered, e5, k5) = >>=-eq-ok (enter_group db row o sequence group now) _ k4 in
      let (id, e6, k6) = >>=-eq-ok (in_context invalid_identity (fingerprint ext publisher)) _ k5 in
      let (u7, e7, k7) =
        >>=-eq-ok
          (check_group_growth store entered id (key_of o group) (length encoded)
            GroupItemKind.object)
          _ k6 in
      let (written, e8, k8) =
        >>=-eq-ok
          (insert_object entered (record {
            group = key_of o group;
            sequence = sequence;
            received_at_ms = now;
            object = encoded;
          }))
          _ k7 in
      let (bytes, e9, k9) = >>=-eq-ok {E = StoreError} (to_sql_u64 (length encoded)) _ k8 in
      let (timestamp, e10, k10) = >>=-eq-ok {E = StoreError} (to_sql_u64 o.header.timestamp) _ k9 in
      let (grown, e11, k11) =
        >>=-eq-ok (update_group written (key_of o group) (extended sequence timestamp now bytes)) _
          k10 in
      let set = λ (s : StreamRow). record s { high_water = sequence } in
      let ((evicted, kept), e12, k12) =
        >>=-eq-ok (enforce_retention store (update_stream grown stream set) stream now) _ k11 in
      let size = to_sql_u64_inv (length encoded) e9 in
      let answer = ok-injective k12 in
      record {
        row = row;
        group = group;
        entered = entered;
        publisher_id = id;
        written = written;
        timestamp = timestamp;
        grown = grown;
        evicted = evicted;
        there = ok_or_inv _ _ e1;
        next =
            (==_iff sequence (row.high_water + 1)).0
              (true_of_unnegated _ (not_refused _ out_of_order e3));
        grouped = to_sql_u64_inv o.header.key_group e4;
        enters = e5;
        named = e6;
        checked = e7;
        writes = e8;
        fits = e9 ∙ ap ok size;
        grows =
            subst
              (λ n.
                update_group written (key_of o group) (extended sequence timestamp now n)
                ≡ ok grown)
              size e11;
        kept =
            subst
              (λ (out : NativeCommit × Database).
                enforce_retention store (update_stream grown stream set) stream now
                ≡ ok (evicted, out.1))
              answer e12;
        answers = sym (ap (λ (out : NativeCommit × Database). out.0) answer);
      }
