-- ===== src/Relay/Causes.antt =====
-- crates/relay/src/native_store.rs: why `enforce_retention` removes a group.
use glacialcast.Prelude.{
  ℕ, ◌<◌, ◌≤◌, ◌-◌, ◌/◌, min, ◌≡◌, ◌⊎◌, some, List, ℤ, ◌==◌, LeWithin, InRange, i64_half, Distinct,
}
use glacialcast.Relay.Rows.{NativeStore, GroupRow}
use glacialcast.Relay.Statements.{bytes_where}
use glacialcast.Relay.Selections.{In}
use glacialcast.Relay.Rowsets.{keys}
use glacialcast.Relay.Settling.{CompleteIn}

-- Groups between those before and those after.
abbrev pub Between : List GroupRow → List GroupRow → List GroupRow → Type 0
Between before groups after =
    ((x : GroupRow) → In x groups → In x before) × ((x : GroupRow) → In x after → In x groups)

-- The group was last received longer ago than the retention age, or it was the oldest complete group
-- of the stream among groups of which the stream's exceeded the retention bytes.
abbrev pub Outlived : NativeStore → ℤ → GroupRow → Type 0
Outlived store now_ms x =
    (nanoseconds : ℕ) × (store.retention_age ≡ some nanoseconds)
    × (¬ LeWithin now_ms x.received_last_ms (min (nanoseconds / 1_000_000) (i64_half - 1)))

abbrev pub Crowded : NativeStore → ℕ → List GroupRow → List GroupRow → GroupRow → Type 0
Crowded store stream before after x =
    (limit : ℕ) × (groups : List GroupRow) × (store.retention_bytes ≡ some limit)
    × Between before groups after
    × In x groups
    × ((y : GroupRow) → In y groups → CompleteIn stream y → x.first_sequence ≤ y.first_sequence)
    × (limit < bytes_where (λ y. y.key.stream_id == stream) groups)

-- A limit asked for every group that is gone.
abbrev pub Caused : NativeStore → ℕ → ℤ → List GroupRow → List GroupRow → Type 0
Caused store stream now_ms before after =
    (x : GroupRow)
    → In x before
    → In x after
      ⊎ (CompleteIn stream x × (Outlived store now_ms x ⊎ Crowded store stream before after x))

module _ (store : NativeStore) (stream : ℕ) (now_ms : ℤ) (before : List GroupRow) where
  -- What the loop finds in each round.
  abbrev Rest : List GroupRow → Type 0
  Rest groups =
      Distinct (keys groups)
      × ((x : GroupRow) → In x groups → In x before × InRange i64_half x.received_last_ms)
