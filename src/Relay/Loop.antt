-- ===== src/Relay/Loop.antt =====
-- crates/relay/src/native_store.rs: the rounds of the loop of `enforce_retention`.
use glacialcast.Prelude.{
  ℕ, zero, suc, ◌≡◌, ap, ◌∙◌, subst, ◌⊎◌, inl, inr, Bool, true, false, not, ◌&&◌, Option, none,
  some, length, ℤ, arith, ok, Bool-cases, Option-cases, >>=-eq-ok, ok-injective,
}
use glacialcast.Relay.Rows.{NativeStore, GroupRow, Database, saturating_add}
use glacialcast.Relay.Statements.{first_by, delete_group}
use glacialcast.Relay.Retention.{
  bytes_exceeded, complete_in, by_sequence, cutoff_of, age_exceeded, retain, enforce_retention,
}

-- The oldest complete group of a stream.
abbrev pub oldest : ℕ → Database → Option GroupRow
oldest stream db = first_by (complete_in stream) by_sequence db.groups

-- The loop ended with nothing left to remove, or with a group that is within both limits.
abbrev pub Ended : NativeStore → ℕ → Option ℤ → Database → Type 0
Ended store stream cutoff db =
    (oldest stream db ≡ none)
    ⊎ ((g : GroupRow) × (oldest stream db ≡ some g)
        × (bytes_exceeded store stream db ≡ ok false)
        × (age_exceeded cutoff g ≡ false))

both_within : (a b : Bool) → (not a && not b) ≡ true → (a ≡ false) × (b ≡ false)
both_within a b h = ground arith

-- A limit that the group or the stream exceeds.
abbrev pub Beyond : NativeStore → ℕ → Option ℤ → Database → GroupRow → Type 0
Beyond store stream cutoff db g =
    (bytes_exceeded store stream db ≡ ok true) ⊎ (age_exceeded cutoff g ≡ true)

one_beyond : (a b : Bool) → (not a && not b) ≡ false → (a ≡ true) ⊎ (b ≡ true)
one_beyond a b h = ground arith

-- One round: it ends, or it removes the oldest complete group.
abbrev pub Round : ℕ → NativeStore → ℕ → Option ℤ → ℕ → Database → ℕ × Database → Type 0
Round fuel store stream cutoff removed db out =
    (((removed, db) ≡ out) × Ended store stream cutoff db)
    ⊎ ((g : GroupRow) × (oldest stream db ≡ some g)
        × Beyond store stream cutoff db g
        × (retain fuel store stream cutoff (saturating_add removed 1) (delete_group db g.key)
            ≡ ok out))

pub retain-Round :
    (fuel : ℕ) (store : NativeStore) (stream : ℕ) (cutoff : Option ℤ) (removed : ℕ) (db : Database)
    (out : ℕ × Database)
    → retain (suc fuel) store stream cutoff removed db ≡ ok out
    → Round fuel store stream cutoff removed db out
unfolding retain
retain-Round fuel store stream cutoff removed db out h =
    let (exceeded, e, k) = >>=-eq-ok (bytes_exceeded store stream db) _ h in
    elim (Option-cases (oldest stream db)) [
      | inl gone ↦ inl (ok-injective (rw gone at k), inl gone)
      | inr (g, found) ↦ elim (Bool-cases (not exceeded && not (age_exceeded cutoff g))) [
        | inl within ↦
            let (bytes, age) = both_within exceeded (age_exceeded cutoff g) within in
            inl (ok-injective (rw (found, within) at k), inr (g, found, e ∙ ap ok bytes, age))
        | inr beyond ↦
            let exceeds : Beyond store stream cutoff db g =
              elim (one_beyond exceeded (age_exceeded cutoff g) beyond) [
                | inl bytes ↦ inl (e ∙ ap ok bytes)
                | inr age ↦ inr age
              ] in
            inr (g, found, exceeds, rw (found, beyond) at k)
      ]
    ]

-- What each removal keeps holds at the end.
pub retain_inv {ℓ} :
    (P : Database → Type ℓ) (store : NativeStore) (stream : ℕ) (cutoff : Option ℤ)
    (keep : (d : Database) (g : GroupRow)
      → P d
      → oldest stream d ≡ some g
      → P (delete_group d g.key))
    (fuel removed n : ℕ) (db db' : Database)
    → P db
    → retain fuel store stream cutoff removed db ≡ ok (n, db')
    → P db'
unfolding retain
retain_inv P store stream cutoff keep zero removed n db db' p h = absurd (cc h)
retain_inv P store stream cutoff keep (suc fuel) removed n db db' p h =
    elim (retain-Round fuel store stream cutoff removed db (n, db') h) [
      | inl (same, settled) ↦ subst P (ap (λ (out : ℕ × Database). out.1) same) p
      | inr (g, found, beyond, rest) ↦
          retain_inv P store stream cutoff keep fuel (saturating_add removed 1) n
            (delete_group db g.key) db' (keep db g p found) rest
    ]

pub enforce_retention_inv {ℓ} :
    (P : Database → Type ℓ) (store : NativeStore) (stream : ℕ) (now : ℤ) (n : ℕ) (db db' : Database)
    → ((d : Database) (g : GroupRow) → P d → oldest stream d ≡ some g → P (delete_group d g.key))
    → P db
    → enforce_retention store db stream now ≡ ok (n, db')
    → P db'
unfolding enforce_retention
enforce_retention_inv P store stream now n db db' keep p h =
    retain_inv P store stream (cutoff_of store now) keep (suc (length db.groups)) 0 n db db' p h

pub retain-Ended :
    (fuel : ℕ) (store : NativeStore) (stream : ℕ) (cutoff : Option ℤ) (removed n : ℕ)
    (db db' : Database)
    → retain fuel store stream cutoff removed db ≡ ok (n, db')
    → Ended store stream cutoff db'
unfolding retain
retain-Ended zero store stream cutoff removed n db db' h = absurd (cc h)
retain-Ended (suc fuel) store stream cutoff removed n db db' h =
    elim (retain-Round fuel store stream cutoff removed db (n, db') h) [
      | inl (same, settled) ↦
          subst (Ended store stream cutoff) (ap (λ (out : ℕ × Database). out.1) same) settled
      | inr (g, found, beyond, rest) ↦
          retain-Ended fuel store stream cutoff (saturating_add removed 1) n (delete_group db g.key)
            db' rest
    ]
