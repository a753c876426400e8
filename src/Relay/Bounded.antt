-- ===== src/Relay/Bounded.antt =====
-- crates/relay/src/native_store.rs: the byte accounting of groups under the steps of the transactions.
use glacialcast.Prelude.{
  ℕ, ◌+◌, ◌<◌, ◌≤◌, ◌≡◌, refl, sym, ap, ◌∙◌, subst, inl, inr, true, false, Option, none, some,
  some-injective, ◌∷◌, All, Bytes, length, ℤ, arith, ok, ltb, Bool-cases, >>=-eq-ok, ok-injective,
}
use glacialcast.Native.Types.{IdentityPublic, NativeObject}
use glacialcast.Native.External.{External}
use glacialcast.Relay.Rows.{
  StoreError, GroupItemKind, NativeStore, NativeCommit, GroupKey, GroupRow, StreamRow, ObjectRow,
  EnvelopeRow, Database, i64_half, to_sql_u64, saturating_add,
}
use glacialcast.Relay.Statements.{
  find, of_group, update_one, complete_group, insert_group, insert_object, insert_envelope,
  update_stream, update_group, refused_change, bytes_where,
}
use glacialcast.Relay.Retention.{check_group_growth, enforce_retention}
use glacialcast.Relay.Groups.{
  key_of, new_group, complete_active, validate_group_progression, start_group, group_changed,
  enter_group, extended,
}
use glacialcast.Relay.Loop.{enforce_retention_inv}
use glacialcast.Relay.Appended.{Appended}
use glacialcast.Relay.Appending.{same_group_inv}
use glacialcast.Relay.Quota.{
  WithinQuota, total_bytes, check_group_growth-Fits, bytes_where-grow, bytes_where-same,
  update_one-All, find-All, delete_group-WithinQuota,
}

-- A statement that leaves the groups alone.
pub unchanged-WithinQuota :
    (store : NativeStore) (db db' : Database)
    → db'.groups ≡ db.groups
    → WithinQuota store db
    → WithinQuota store db'
unchanged-WithinQuota store db db' same q = record {
  total =
      subst (λ gs. bytes_where (λ g. true) gs ≤ store.limits.max_total_bytes) (sym same) q.total;
  each =
      subst (All (λ (g : GroupRow). g.retained_bytes ≤ store.limits.max_group_bytes)) (sym same)
        q.each;
}

insert_object-groups :
    (db db' : Database) (row : ObjectRow) → insert_object db row ≡ ok db' → db'.groups ≡ db.groups
unfolding insert_object
insert_object-groups db db' row h = ground arith

pub insert_envelope-groups :
    (db db' : Database) (row : EnvelopeRow)
    → insert_envelope db row ≡ ok db'
    → db'.groups ≡ db.groups
unfolding insert_envelope
insert_envelope-groups db db' row h = ground arith

insert_group-groups :
    (db db' : Database) (row : GroupRow)
    → insert_group db row ≡ ok db'
    → db'.groups ≡ row ∷ db.groups
unfolding insert_group
insert_group-groups db db' row h = ground arith

update_group-groups :
    (db db' : Database) (key : GroupKey) (change : GroupRow → GroupRow)
    → update_group db key change ≡ ok db'
    → (refused_change change (find (of_group key) db.groups) ≡ false)
      × (db'.groups ≡ update_one (of_group key) change db.groups)
unfolding update_group
update_group-groups db db' key change h = ground arith

allowed_bytes :
    (change : GroupRow → GroupRow) (g : GroupRow)
    → refused_change change (some g) ≡ false
    → (change g).retained_bytes < i64_half
allowed_bytes change g h = ground arith

pub complete_group-WithinQuota :
    (store : NativeStore) (db : Database) (key : GroupKey)
    → WithinQuota store db
    → WithinQuota store (complete_group db key)
unfolding complete_group
complete_group-WithinQuota store db key q = record {
  total = omega (
    arith,
    q.total,
    bytes_where-same key (λ g. record g { complete = true }) db.groups (λ r. refl),
  );
  each = update_one-All _ (of_group key) _ db.groups q.each (λ r found.
      find-All (λ (g : GroupRow). g.retained_bytes ≤ store.limits.max_group_bytes) (of_group key)
        db.groups r q.each found);
}

unsaturated :
    (limit a b n : ℕ)
    → n ≡ a + b
    → n < i64_half
    → ltb limit (saturating_add a b) ≡ false
    → n ≤ limit
unsaturated limit a b n e small h = ground arith

-- The update that adds an item to its group, after the check.
pub update_group-WithinQuota :
    (store : NativeStore) (base db db' : Database) (publisher : ℕ) (key : GroupKey)
    (change : GroupRow → GroupRow) (added : ℕ) (kind : GroupItemKind)
    → WithinQuota store base
    → db.groups ≡ base.groups
    → added < i64_half
    → check_group_growth store base publisher key added kind ≡ ok tt
    → ((r : GroupRow) → (change r).retained_bytes ≡ r.retained_bytes + added)
    → update_group db key change ≡ ok db'
    → WithinQuota store db'
update_group-WithinQuota store base db db' publisher key change added kind q same small checked
      grows h =
    let (g, found, each, total) =
      check_group_growth-Fits store base publisher key added kind small checked in
    let (allowed, updated) = update_group-groups db db' key change h in
    let there : find (of_group key) db.groups ≡ some g = ap (find (of_group key)) same ∙ found in
    let fits =
      allowed_bytes change g (subst (λ o. refused_change change o ≡ false) there allowed) in
    let q_db = unchanged-WithinQuota store base db same q in
    let counted : total_bytes db ≡ total_bytes base = ap (bytes_where (λ g. true)) same in
    unchanged-WithinQuota store (record db { groups = update_one (of_group key) change db.groups })
      db' updated
      (record {
        total =
            omega
              (arith, bytes_where-grow key change added db.groups g grows there, counted, total);
        each = update_one-All _ (of_group key) change db.groups q_db.each (λ r found_r.
            let one : g ≡ r = some-injective g r (sym there ∙ found_r) in
            subst (λ x. (change x).retained_bytes ≤ store.limits.max_group_bytes) one
              (unsaturated store.limits.max_group_bytes g.retained_bytes added
                (change g).retained_bytes (grows g) fits each));
      })

pub enforce_retention-WithinQuota :
    (store : NativeStore) (db db' : Database) (stream : ℕ) (now : ℤ) (n : ℕ)
    → WithinQuota store db
    → enforce_retention store db stream now ≡ ok (n, db')
    → WithinQuota store db'
enforce_retention-WithinQuota store db db' stream now n q h =
    enforce_retention_inv (WithinQuota store) store stream now n db db'
      (λ d g keep found. delete_group-WithinQuota store d g.key keep) q h

complete_active-WithinQuota :
    (store : NativeStore) (db : Database) (stream : ℕ) (epoch group : Option ℕ)
    → WithinQuota store db
    → WithinQuota store (complete_active db stream epoch group)
complete_active-WithinQuota store db stream none group q = q
complete_active-WithinQuota store db stream (some e) none q = q
complete_active-WithinQuota store db stream (some e) (some g) q =
    complete_group-WithinQuota store db _ q

enter_group-WithinQuota :
    (store : NativeStore) (db db' : Database) (row : StreamRow) (o : NativeObject)
    (sequence group : ℕ) (now : ℤ)
    → WithinQuota store db
    → enter_group db row o sequence group now ≡ ok db'
    → WithinQuota store db'
unfolding enter_group start_group update_stream bytes_where
enter_group-WithinQuota store db db' row o sequence group now q h =
    elim (Bool-cases (group_changed row o group)) [
      | inr same ↦ subst (WithinQuota store) (same_group_inv db db' o group (rw same at h)) q
      | inl changed ↦
          let (u, e1, k1) =
            >>=-eq-ok
              (validate_group_progression row.active_epoch row.active_group o.header.epoch_id group
                o)
              _ (rw changed at h) in
          let (timestamp, e2, k2) =
            >>=-eq-ok {E = StoreError} (to_sql_u64 o.header.timestamp) _ k1 in
          let base = complete_active db o.header.stream_id row.active_epoch row.active_group in
          let (started, e3, k3) =
            >>=-eq-ok (insert_group base (new_group o group sequence timestamp now)) _ k2 in
          let before =
            complete_active-WithinQuota store db o.header.stream_id row.active_epoch
              row.active_group q in
          subst (WithinQuota store) (ok-injective k3) (
            unchanged-WithinQuota store
              (record base { groups = new_group o group sequence timestamp now ∷ base.groups }) _
              (insert_group-groups base started _ e3)
              (record { total = omega (arith, before.total); each = (omega arith, before.each) }))
    ]

pub durable : (n : ℕ) {m : ℕ} → to_sql_u64 n ≡ ok m → n < i64_half
durable n h = ground arith

-- A `store_object` that appends keeps the limits.
pub Appended-WithinQuota :
    (ext : External) (store : NativeStore) (db db' : Database) (o : NativeObject)
    (publisher : IdentityPublic) (encoded : Bytes) (sequence : ℕ) (now : ℤ) (commit : NativeCommit)
    → Appended ext store db o publisher encoded sequence now commit db'
    → WithinQuota store db
    → WithinQuota store db'
unfolding update_stream
Appended-WithinQuota ext store db db' o publisher encoded sequence now commit w q =
    let entered =
      enter_group-WithinQuota store db w.entered w.row o sequence w.group now q w.enters in
    let grown =
      update_group-WithinQuota store w.entered w.written w.grown w.publisher_id (key_of o w.group)
        (extended sequence w.timestamp now (length encoded)) (length encoded) GroupItemKind.object
        entered (insert_object-groups w.entered w.written _ w.writes)
        (durable (length encoded) w.fits) w.checked (λ r. refl) w.grows in
    enforce_retention-WithinQuota store _ db' o.header.stream_id now w.evicted
      (unchanged-WithinQuota store w.grown _ refl grown) w.kept
