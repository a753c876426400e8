-- ===== src/Relay/Settling.antt =====
-- crates/relay/src/native_store.rs: the limits that `enforce_retention` establishes, on the rows of the groups
-- and in whole milliseconds.
use glacialcast.Prelude.{
  ℕ, ◌-◌, ◌≤◌, ◌/◌, min, ◌≡◌, ◌∙◌, ◌⊎◌, inl, inr, true, false, some, List, ℤ, pos, negsuc, arith,
  ok, ◌==◌, ltb_ℤ, saturating_sub_ℤ, LeWithin, i64_half, >>=-eq-ok, sym,
}
use glacialcast.Relay.Rows.{NativeStore, GroupRow, Database}
use glacialcast.Relay.Statements.{sum_bytes, bytes_where}
use glacialcast.Relay.Retention.{
  in_stream, complete_in, by_sequence, cutoff_of, age_exceeded, bytes_exceeded,
}
use glacialcast.Relay.Selections.{In, first_by_sound, first_by_empty, first_by_first}
use glacialcast.Relay.Loop.{oldest, Ended}

abbrev pub CompleteIn : ℕ → GroupRow → Type 0
CompleteIn stream g = (g.key.stream_id ≡ stream) × (g.complete ≡ true)

-- The oldest complete group of a stream, with the limits that it and the stream are within.
pub record OldestWithin (store : NativeStore) (stream : ℕ) (now_ms : ℤ) (groups : List GroupRow)
    : Type 0 where
  pub group : GroupRow
  pub there : In group groups
  pub complete : CompleteIn stream group
  pub first :
      (x : GroupRow) → In x groups → CompleteIn stream x → group.first_sequence ≤ x.first_sequence
  pub young :
      (nanoseconds : ℕ)
      → store.retention_age ≡ some nanoseconds
      → LeWithin now_ms group.received_last_ms (nanoseconds / 1_000_000)
  pub small :
      (limit : ℕ)
      → store.retention_bytes ≡ some limit
      → bytes_where (λ x. x.key.stream_id == stream) groups ≤ limit

abbrev pub Settled : NativeStore → ℕ → ℤ → List GroupRow → Type 0
Settled store stream now_ms groups =
    ((x : GroupRow) → In x groups → ¬ CompleteIn stream x) ⊎ OldestWithin store stream now_ms groups

pub complete_in_iff :
    (stream : ℕ) (g : GroupRow) → CompleteIn stream g → complete_in stream g ≡ true
complete_in_iff stream g c = ground arith

not_later :
    (r now_ms : ℤ) (k : ℕ)
    → ltb_ℤ r (saturating_sub_ℤ now_ms (min k (i64_half - 1))) ≡ false
    → LeWithin now_ms r k
not_later (pos r) (pos n) k h = ground arith
not_later (pos r) (negsuc n) k h = ground arith
not_later (negsuc r) (pos n) k h = ground arith
not_later (negsuc r) (negsuc n) k h = ground arith

young_lem :
    (store : NativeStore) (now_ms : ℤ) (g : GroupRow) (nanoseconds : ℕ)
    → age_exceeded (cutoff_of store now_ms) g ≡ false
    → store.retention_age ≡ some nanoseconds
    → LeWithin now_ms g.received_last_ms (nanoseconds / 1_000_000)
young_lem store now_ms g nanoseconds h on =
    not_later g.received_last_ms now_ms (nanoseconds / 1_000_000) (rw on at h)

small_lem :
    (store : NativeStore) (stream : ℕ) (db : Database) (limit : ℕ)
    → bytes_exceeded store stream db ≡ ok false
    → store.retention_bytes ≡ some limit
    → bytes_where (λ x. x.key.stream_id == stream) db.groups ≤ limit
unfolding bytes_exceeded sum_bytes
small_lem store stream db limit h on =
    let (bytes, e, k) = >>=-eq-ok (sum_bytes (in_stream stream) db.groups) _ (rw on at h) in
    ground arith

pub by_sequence_first :
    (stream : ℕ) (db : Database) (g other : GroupRow)
    → oldest stream db ≡ some g
    → In other db.groups
    → complete_in stream other ≡ true
    → by_sequence other g ≡ false
by_sequence_first stream db g other found there complete =
    first_by_first (complete_in stream) by_sequence (λ a b h. ground arith)
      (λ a b c h k. ground arith) (λ a. ground arith) db.groups g other found there complete

pub Ended-Settled :
    (store : NativeStore) (stream : ℕ) (now_ms : ℤ) (db : Database)
    → Ended store stream (cutoff_of store now_ms) db
    → Settled store stream now_ms db.groups
Ended-Settled store stream now_ms db (inl gone) = inl (λ x there c. absurd (
    cc (
      sym (complete_in_iff stream x c)
      ∙ first_by_empty (complete_in stream) by_sequence db.groups x gone there)))
Ended-Settled store stream now_ms db (inr (g, found, bytes, age)) =
    let (there, complete) = first_by_sound (complete_in stream) by_sequence db.groups g found in
    inr (record {
      group = g;
      there = there;
      complete = ground arith;
      first = λ x of_x c.
          let later : by_sequence x g ≡ false =
            by_sequence_first stream db g x found of_x (complete_in_iff stream x c) in
          ground arith;
      young = λ n on. young_lem store now_ms g n age on;
      small = λ limit on. small_lem store stream db limit bytes on;
    })
