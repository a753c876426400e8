-- ===== src/Relay/Evicting.antt =====
-- crates/relay/src/native_store.rs: which groups `enforce_retention` removes, and when it stops.
use glacialcast.Prelude.{
  ℕ, zero, suc, ◌<◌, ◌≡◌, refl, ap, ◌∙◌, ◌⊎◌, inl, inr, Bool, true, false, not, ◌&&◌, Option, none,
  some, List, length, ℤ, arith, ok, ◌>>=◌, ltb, Bool-cases, Option-cases, Distinct,
}
use glacialcast.Relay.Rows.{NativeStore, GroupRow, Database, i64_half, saturating_add}
use glacialcast.Relay.Statements.{select, delete_group, of_group, sum_bytes, bytes_where}
use glacialcast.Relay.Retention.{
  bytes_exceeded, in_stream, complete_in, by_sequence, cutoff_of, age_exceeded, retain,
  enforce_retention,
}
use glacialcast.Relay.Selections.{In, first_by_sound, same_key_sound}
use glacialcast.Relay.Rowsets.{
  keys, length-delete_one, bytes_where-delete_one, delete_one-Distinct, select-delete_one,
  In-delete_one, delete_one-In, row_of_key,
}
use glacialcast.Relay.Settling.{Settled, Ended-Settled, by_sequence_first}
use glacialcast.Relay.Loop.{oldest, enforce_retention_inv, retain-Ended}

bytes_known :
    (store : NativeStore) (stream : ℕ) (db : Database)
    → bytes_where (in_stream stream) db.groups < i64_half
    → (exceeded : Bool) × (bytes_exceeded store stream db ≡ ok exceeded)
unfolding bytes_exceeded sum_bytes
bytes_known store stream db small = elim (Option-cases store.retention_bytes) [
  | inl off ↦ (false, rw off)
  | inr (limit, on) ↦ (ltb limit (bytes_where (in_stream stream) db.groups), ground arith)
]

module _ (fuel : ℕ) (store : NativeStore) (stream : ℕ) (cutoff : Option ℤ) (removed : ℕ)
    (db : Database) (exceeded : Bool) (known : bytes_exceeded store stream db ≡ ok exceeded) where
  retain_gone :
      oldest stream db ≡ none → retain (suc fuel) store stream cutoff removed db ≡ ok (removed, db)
  unfolding retain
  retain_gone gone = rw (known, gone)

  retain_within :
      (g : GroupRow)
      → oldest stream db ≡ some g
      → (not exceeded && not (age_exceeded cutoff g)) ≡ true
      → retain (suc fuel) store stream cutoff removed db ≡ ok (removed, db)
  unfolding retain
  retain_within g found within = rw (known, found, ◌>>=◌, within)

  retain_beyond :
      (g : GroupRow)
      → oldest stream db ≡ some g
      → (not exceeded && not (age_exceeded cutoff g)) ≡ false
      → retain (suc fuel) store stream cutoff removed db
        ≡ retain fuel store stream cutoff (saturating_add removed 1) (delete_group db g.key)
  unfolding retain
  retain_beyond g found beyond = rw (known, found, ◌>>=◌, beyond)

-- Enough fuel gives a result.
retain_total :
    (fuel : ℕ) (store : NativeStore) (stream : ℕ) (cutoff : Option ℤ) (removed : ℕ) (db : Database)
    → length db.groups < fuel
    → bytes_where (in_stream stream) db.groups < i64_half
    → (out : ℕ × Database) × (retain fuel store stream cutoff removed db ≡ ok out)
unfolding delete_group
retain_total zero store stream cutoff removed db enough small = absurd (omega arith)
retain_total (suc fuel) store stream cutoff removed db enough small =
    let (exceeded, e) = bytes_known store stream db small in
    elim (Option-cases (oldest stream db)) [
      | inl gone ↦ ((removed, db), retain_gone fuel store stream cutoff removed db exceeded e gone)
      | inr (g, found) ↦ elim (Bool-cases (not exceeded && not (age_exceeded cutoff g))) [
        | inl within ↦ (
          (removed, db),
          retain_within fuel store stream cutoff removed db exceeded e g found within,
        )
        | inr beyond ↦
            let there = (first_by_sound (complete_in stream) by_sequence db.groups g found).0 in
            let (out, ended) =
              retain_total fuel store stream cutoff (saturating_add removed 1)
                (delete_group db g.key) (omega (arith, length-delete_one db.groups g there))
                (omega (arith, small, bytes_where-delete_one (in_stream stream) g.key db.groups)) in
            (
              out,
              retain_beyond fuel store stream cutoff removed db exceeded e g found beyond ∙ ended,
            )
      ]
    ]

-- When the counted bytes of the stream are below 2^63, enforce_retention returns a result, and
-- in it the stream has no complete group, or a complete group of it that starts no later than
-- the others was last received no longer ago than the retention age in whole milliseconds,
-- where one is set, and the counted bytes of the stream are at most the retention bytes, where
-- they are set.
pub enforce_retention-Settled :
    (store : NativeStore) (db : Database) (stream : ℕ) (now : ℤ)
    → bytes_where (in_stream stream) db.groups < i64_half
    → (n : ℕ) × (db' : Database) × (enforce_retention store db stream now ≡ ok (n, db'))
      × Settled store stream now db'.groups
unfolding enforce_retention
enforce_retention-Settled store db stream now small =
    let ((n, db'), e) =
      retain_total (suc (length db.groups)) store stream (cutoff_of store now) 0 db (omega arith)
        small in
    (
      n,
      db',
      e,
      Ended-Settled store stream now db'
          (retain-Ended (suc (length db.groups)) store stream _ 0 n db db' e),
    )

-- Each complete group of the stream is still there or starts no later than those that are.
abbrev pub OldestRemoved : ℕ → List GroupRow → List GroupRow → Type 0
OldestRemoved stream before after =
    (x : GroupRow)
    → In x before
    → complete_in stream x ≡ true
    → In x after
      ⊎ ((y : GroupRow) → In y after → complete_in stream y ≡ true → by_sequence y x ≡ false)

-- What the loop keeps true of the groups that are left.
abbrev pub Kept : ℕ → List GroupRow → List GroupRow → Type 0
Kept stream before after =
    (select (λ g. not (complete_in stream g)) after
      ≡ select (λ g. not (complete_in stream g)) before)
    × OldestRemoved stream before after

abbrev Keeping : ℕ → Database → Database → Type 0
Keeping stream db d = Distinct (keys d.groups) × Kept stream db.groups d.groups

delete_group-Keeping :
    (stream : ℕ) (db d : Database) (g : GroupRow)
    → Keeping stream db d
    → oldest stream d ≡ some g
    → Keeping stream db (delete_group d g.key)
unfolding delete_group
delete_group-Keeping stream db d g (distinct, (same, removed)) found =
    let (there, complete) = first_by_sound (complete_in stream) by_sequence d.groups g found in
    (
      delete_one-Distinct g.key d.groups distinct,
      (
        select-delete_one (λ g. not (complete_in stream g)) d.groups g distinct there
              (ap not complete)
            ∙ same,
        λ x of_x complete_x. elim (removed x of_x complete_x) [
          | inr first ↦ inr (λ y of_y. first y (In-delete_one g.key d.groups y of_y))
          | inl still ↦ elim (Bool-cases (of_group g.key x)) [
            | inr other ↦ inl (delete_one-In g.key d.groups x still other)
            | inl deleted ↦
                let x_is_g =
                  row_of_key d.groups x g distinct still there (same_key_sound _ _ deleted) in
                inr (λ y of_y complete_y. rw x_is_g (
                  by_sequence_first stream d g y found (In-delete_one g.key d.groups y of_y)
                    complete_y))
          ]
        ],
      ),
    )

-- When the keys of the groups are distinct, enforce_retention leaves the groups that are
-- incomplete or of other streams as they are and in their order, and each complete group of the
-- stream is still there or starts no later than every complete group of the stream that is
-- left.
pub enforce_retention-Kept :
    (store : NativeStore) (db db' : Database) (stream : ℕ) (now : ℤ) (n : ℕ)
    → Distinct (keys db.groups)
    → enforce_retention store db stream now ≡ ok (n, db')
    → Kept stream db.groups db'.groups
enforce_retention-Kept store db db' stream now n distinct h =
    (enforce_retention_inv (Keeping stream db) store stream now n db db'
      (delete_group-Keeping stream db) (distinct, (refl, λ x there complete. inl there)) h).1
