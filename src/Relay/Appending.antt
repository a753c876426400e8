-- ===== src/Relay/Appending.antt =====
-- crates/relay/src/native_store.rs: what `store_object` does to the high-water marks of the streams.
use glacialcast.Prelude.{
  ℕ, suc, ◌≡◌, refl, ap, ◌∙◌, subst, inl, inr, not, Option, none, some, List, Bytes, ℤ, arith, ok,
  fail_if, ok_or, ◌==◌, Bool-cases, if◌then◌else◌, >>=-eq-ok, ok-injective,
}
use glacialcast.Native.Types.{IdentityPublic, NativeObject}
use glacialcast.Native.External.{External}
use glacialcast.Relay.Rows.{
  StoreError, missing_row, key_changed, NativeStore, NativeCommit, StreamRow, Database, to_sql_u64,
}
use glacialcast.Relay.Statements.{
  find, of_stream, of_group, insert_group, update_stream, complete_group,
}
use glacialcast.Relay.Groups.{
  key_of, new_group, complete_active, validate_group_progression, start_group, same_group,
  group_changed, enter_group,
}
use glacialcast.Relay.Appended.{Appended}
use glacialcast.Relay.Streams.{
  mark, mark-update_same, mark-update_set, mark-find, find-update_one, insert_group-streams,
  insert_object-streams, update_group-streams, enforce_retention-streams,
}

complete_active-streams :
    (db : Database) (stream : ℕ) (epoch group : Option ℕ)
    → (complete_active db stream epoch group).streams ≡ db.streams
unfolding complete_group
complete_active-streams db stream none group = refl
complete_active-streams db stream (some e) none = refl
complete_active-streams db stream (some e) (some g) = refl

-- The rows of streams that entering a group leaves: the same marks, and the stream is still there.
abbrev SameMarks : ℕ → List StreamRow → List StreamRow → Type 0
SameMarks stream before after =
    ((t : ℕ) → mark after t ≡ mark before t)
    × (row : StreamRow) × (find (of_stream stream) after ≡ some row)

start_group-SameMarks :
    (db db' : Database) (row : StreamRow) (o : NativeObject) (sequence group : ℕ) (now : ℤ)
    → find (of_stream o.header.stream_id) db.streams ≡ some row
    → start_group db row o sequence group now ≡ ok db'
    → SameMarks o.header.stream_id db.streams db'.streams
unfolding start_group update_stream
start_group-SameMarks db db' row o sequence group now there h =
    let stream = o.header.stream_id in
    let (u, e1, k1) =
      >>=-eq-ok
        (validate_group_progression row.active_epoch row.active_group o.header.epoch_id group o) _
        h in
    let (timestamp, e2, k2) = >>=-eq-ok {E = StoreError} (to_sql_u64 o.header.timestamp) _ k1 in
    let base = complete_active db stream row.active_epoch row.active_group in
    let (started, e3, k3) =
      >>=-eq-ok (insert_group base (new_group o group sequence timestamp now)) _ k2 in
    let change = λ (s : StreamRow). record s {
      active_epoch = some o.header.epoch_id;
      active_group = some group;
    } in
    let same : started.streams ≡ db.streams =
      insert_group-streams base started _ e3
      ∙ complete_active-streams db stream row.active_epoch row.active_group in
    subst (λ (d : Database). SameMarks stream db.streams d.streams) (ok-injective k3)
      (
        λ t.
            mark-update_same change stream t started.streams (λ r. refl) (λ r. refl)
            ∙ ap (λ rows. mark rows t) same,
        change row,
        find-update_one stream change started.streams row (λ r. refl)
            (ap (find (of_stream stream)) same ∙ there),
      )

pub same_group_inv :
    (db db' : Database) (o : NativeObject) (group : ℕ) → same_group db o group ≡ ok db' → db ≡ db'
unfolding same_group
same_group_inv db db' o group h =
    let (g, e1, k1) =
      >>=-eq-ok (ok_or (find (of_group (key_of o group)) db.groups) missing_row) _ h in
    ok-injective (>>=-eq-ok (fail_if (not (g.key_id == o.header.key_id)) key_changed) _ k1).2

pub enter_group-SameMarks :
    (db db' : Database) (row : StreamRow) (o : NativeObject) (sequence group : ℕ) (now : ℤ)
    → find (of_stream o.header.stream_id) db.streams ≡ some row
    → enter_group db row o sequence group now ≡ ok db'
    → SameMarks o.header.stream_id db.streams db'.streams
unfolding enter_group
enter_group-SameMarks db db' row o sequence group now there h =
    elim (Bool-cases (group_changed row o group)) [
      | inl changed ↦ start_group-SameMarks db db' row o sequence group now there (rw changed at h)
      | inr same ↦
          subst (λ (d : Database). SameMarks o.header.stream_id db.streams d.streams)
            (same_group_inv db db' o group (rw same at h)) (λ t. refl, row, there)
    ]

-- One insertion: the next sequence of its stream, whose mark it becomes; the other marks stay.
abbrev pub Inserts : ℕ → ℕ → Database → Database → Type 0
Inserts stream sequence db db' =
    (sequence ≡ suc (mark db.streams stream))
    × ((t : ℕ) → mark db'.streams t ≡ (if t == stream then sequence else mark db.streams t))

pub Appended-Inserts :
    (ext : External) (store : NativeStore) (db db' : Database) (o : NativeObject)
    (publisher : IdentityPublic) (encoded : Bytes) (sequence : ℕ) (now : ℤ) (commit : NativeCommit)
    → Appended ext store db o publisher encoded sequence now commit db'
    → Inserts o.header.stream_id sequence db db'
unfolding update_stream
Appended-Inserts ext store db db' o publisher encoded sequence now commit w =
    let stream = o.header.stream_id in
    let (marks, row, there) =
      enter_group-SameMarks db w.entered w.row o sequence w.group now w.there w.enters in
    let grown : w.grown.streams ≡ w.entered.streams =
      update_group-streams w.written w.grown _ _ w.grows
      ∙ insert_object-streams w.entered w.written _ w.writes in
    let ended = enforce_retention-streams store _ db' stream now w.evicted w.kept in
    (
      omega (arith, w.next, mark-find stream db.streams w.row w.there),
      λ t.
          ap (λ rows. mark rows t) ended
          ∙ mark-update_set sequence stream t w.grown.streams row
              (ap (find (of_stream stream)) grown ∙ there)
          ∙ ap (λ (m : ℕ). if t == stream then sequence else m)
              (ap (λ rows. mark rows t) grown ∙ marks t),
    )
