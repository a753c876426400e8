-- ===== src/Relay/Storing.antt =====
-- crates/relay/src/native_store.rs: the tables of groups and objects through the steps of an append.
use glacialcast.Prelude.{
  ℕ, ◌≡◌, refl, sym, ap, ◌∙◌, subst, inl, inr, true, false, Option, none, some, List, ◌∷◌, Bytes, ℤ,
  arith, ok, is_some, Bool-cases, >>=-eq-ok, ok-injective,
}
use glacialcast.Native.Types.{IdentityPublic, NativeObject}
use glacialcast.Native.External.{External}
use glacialcast.Relay.Rows.{
  StoreError, NativeStore, NativeCommit, StreamRow, GroupKey, GroupRow, ObjectRow, Database,
  to_sql_u64,
}
use glacialcast.Relay.Statements.{
  find, update_one, same_key, of_group, object_in, insert_group, insert_object, update_stream,
  complete_group, update_group, delete_group,
}
use glacialcast.Relay.Retention.{complete_in, by_sequence, enforce_retention}
use glacialcast.Relay.Groups.{
  key_of, new_group, complete_active, validate_group_progression, start_group, group_changed,
  enter_group,
}
use glacialcast.Relay.Selections.{In, same_key_refl, same_key_sound, first_by_sound}
use glacialcast.Relay.Rowsets.{In-delete_one}
use glacialcast.Relay.Loop.{oldest, enforce_retention_inv}
use glacialcast.Relay.Appended.{Appended}
use glacialcast.Relay.Appending.{same_group_inv}
use glacialcast.Relay.Objects.{
  object_row, Writes, Growing, Growing-dec, In-delete_where, delete_where-In, find-missing,
  update_one-Growing,
}

insert_group_inv :
    (db db' : Database) (row : GroupRow)
    → insert_group db row ≡ ok db'
    → (db'.groups ≡ row ∷ db.groups)
      × (db'.objects ≡ db.objects)
      × (is_some (find (of_group row.key) db.groups) ≡ false)
unfolding insert_group
insert_group_inv db db' row h = (ground arith, ground arith, ground arith)

insert_object_inv :
    (db db' : Database) (row : ObjectRow)
    → insert_object db row ≡ ok db'
    → (db'.groups ≡ db.groups) × (db'.objects ≡ row ∷ db.objects)
unfolding insert_object
insert_object_inv db db' row h = (ground arith, ground arith)

update_group_inv :
    (db db' : Database) (key : GroupKey) (change : GroupRow → GroupRow)
    → update_group db key change ≡ ok db'
    → (db'.groups ≡ update_one (of_group key) change db.groups) × (db'.objects ≡ db.objects)
unfolding update_group
update_group_inv db db' key change h = (ground arith, ground arith)

complete_active-objects :
    (db : Database) (stream : ℕ) (epoch group : Option ℕ)
    → (complete_active db stream epoch group).objects ≡ db.objects
unfolding complete_group
complete_active-objects db stream none group = refl
complete_active-objects db stream (some e) none = refl
complete_active-objects db stream (some e) (some g) = refl

-- Entering a group leaves the objects, and a group that is not complete stays so.
abbrev Enters : GroupKey → Database → Database → Type 0
Enters key db db' = (db'.objects ≡ db.objects) × (Growing key db.groups → Growing key db'.groups)

start_group-Enters :
    (db db' : Database) (row : StreamRow) (o : NativeObject) (sequence group : ℕ) (now : ℤ)
    → start_group db row o sequence group now ≡ ok db'
    → Enters (key_of o group) db db'
unfolding start_group update_stream
start_group-Enters db db' row o sequence group now h =
    let stream = o.header.stream_id in
    let (u, e1, k1) =
      >>=-eq-ok
        (validate_group_progression row.active_epoch row.active_group o.header.epoch_id group o) _
        h in
    let (timestamp, e2, k2) = >>=-eq-ok {E = StoreError} (to_sql_u64 o.header.timestamp) _ k1 in
    let base = complete_active db stream row.active_epoch row.active_group in
    let fresh = new_group o group sequence timestamp now in
    let (started, e3, k3) = >>=-eq-ok (insert_group base fresh) _ k2 in
    let (groups, objects, missing) = insert_group_inv base started fresh e3 in
    subst (Enters (key_of o group) db) (ok-injective k3) (
      objects ∙ complete_active-objects db stream row.active_epoch row.active_group,
      λ growing. subst (Growing (key_of o group)) (sym groups) (λ g there of. elim there [
        | inl same ↦ ap (λ (x : GroupRow). x.complete) same
        | inr old ↦
            absurd
              (cc (sym of ∙ find-missing (of_group (key_of o group)) base.groups g missing old))
      ]),
    )

enter_group-Enters :
    (db db' : Database) (row : StreamRow) (o : NativeObject) (sequence group : ℕ) (now : ℤ)
    → enter_group db row o sequence group now ≡ ok db'
    → Enters (key_of o group) db db'
unfolding enter_group
enter_group-Enters db db' row o sequence group now h =
    elim (Bool-cases (group_changed row o group)) [
      | inl changed ↦ start_group-Enters db db' row o sequence group now (rw changed at h)
      | inr same ↦
          subst (Enters (key_of o group) db) (same_group_inv db db' o group (rw same at h))
            (refl, λ growing. growing)
    ]

-- Retention adds no object, and leaves those of a group that is not complete.
enforce_retention-older :
    (store : NativeStore) (db db' : Database) (stream : ℕ) (now : ℤ) (n : ℕ) (x : ObjectRow)
    → enforce_retention store db stream now ≡ ok (n, db')
    → In x db'.objects
    → In x db.objects
unfolding delete_group
enforce_retention-older store db db' stream now n x h there =
    enforce_retention_inv (λ d. In x d.objects → In x db.objects) store stream now n db db'
      (λ d g older found i. older (In-delete_where (object_in g.key) d.objects x i)) (λ i. i) h
      there

abbrev Holds : ObjectRow → Database → Type 0
Holds row d = Growing row.group d.groups × In row d.objects

delete_group-Holds :
    (row : ObjectRow) (stream : ℕ) (d : Database) (g : GroupRow)
    → Holds row d
    → oldest stream d ≡ some g
    → Holds row (delete_group d g.key)
unfolding delete_group
delete_group-Holds row stream d g (growing, there) found =
    let (of_g, complete) = first_by_sound (complete_in stream) by_sequence d.groups g found in
    (
      λ x of_x of. growing x (In-delete_one g.key d.groups x of_x) of,
      delete_where-In (object_in g.key) d.objects row there
          (elim (Bool-cases (same_key row.group g.key)) [
            | inr other ↦ other
            | inl same ↦
                let mine : of_group row.group g ≡ true =
                  ap (λ k. same_key k row.group) (sym (same_key_sound row.group g.key same))
                  ∙ same_key_refl row.group in
                let unfinished = growing g of_g mine in absurd (ground arith)
          ]),
    )

abbrev row_at : NativeObject → ℕ → ℕ → Bytes → ℤ → ObjectRow
row_at o group sequence encoded now = record {
  group = key_of o group;
  sequence = sequence;
  received_at_ms = now;
  object = encoded;
}

pub Appended-Writes :
    (ext : External) (store : NativeStore) (db db' : Database) (o : NativeObject)
    (publisher : IdentityPublic) (encoded : Bytes) (sequence : ℕ) (now : ℤ) (commit : NativeCommit)
    → sequence ≡ o.header.sequence
    → Appended ext store db o publisher encoded sequence now commit db'
    → Writes (object_row o encoded now) db db'
unfolding update_stream
Appended-Writes ext store db db' o publisher encoded sequence now commit at w =
    let row = row_at o w.group sequence encoded now in
    let (kept, growing) = enter_group-Enters db w.entered w.row o sequence w.group now w.enters in
    let (groups1, objects1) = insert_object_inv w.entered w.written row w.writes in
    let (groups2, objects2) = update_group_inv w.written w.grown _ _ w.grows in
    let objects : w.grown.objects ≡ row ∷ db.objects =
      objects2 ∙ objects1 ∙ ap (λ (rows : List ObjectRow). row ∷ rows) kept in
    let stays : Growing row.group db.groups → In row db'.objects = λ before.
      (enforce_retention_inv (Holds row) store o.header.stream_id now w.evicted _ db'
        (λ d g. delete_group-Holds row o.header.stream_id d g)
        (
          subst (Growing row.group) (sym groups2) (
              update_one-Growing row.group (of_group row.group) _ w.written.groups (λ g. refl)
                (λ g. refl) (subst (Growing row.group) (sym groups1) (growing before))),
          subst (In row) (sym objects) (inl refl),
        )
        w.kept).1 in
    let written : Writes row db db' = (
      elim (Growing-dec row.group db.groups) [
        | inl before ↦ inl (stays before)
        | inr complete ↦ inr complete
      ],
      λ x there.
          subst (In x) objects
            (enforce_retention-older store _ db' o.header.stream_id now w.evicted x w.kept there),
    ) in
    subst (λ r. Writes r db db')
      (ap (λ (n : ℕ). row_at o n sequence encoded now) w.grouped
        ∙ ap (λ (n : ℕ). row_at o o.header.key_group n encoded now) at)
      written
