-- ===== src/Relay/Anchors.antt =====
-- crates/relay/src/native_store.rs: where `subscription_anchor` starts a subscription.
use glacialcast.Prelude.{
  ℕ, suc, ◌+◌, ◌≤◌, ◌<◌, ◌≡◌, sym, ap, ◌∙◌, subst, ◌⊎◌, inl, inr, Bool, true, false, Option, arith,
  ok, ok_or, ltb, Bool-cases, Option-cases, >>=-eq-ok, ok-injective,
}
use glacialcast.Native.Inversions.{ok_or_inv}
use glacialcast.Relay.Rows.{
  StoreError, SubscriptionStart, missing_row, GroupRow, Database, to_sql_u64,
}
use glacialcast.Relay.Statements.{find, first_by, of_stream}
use glacialcast.Relay.Retention.{in_stream, complete_in, by_sequence}
use glacialcast.Relay.Queries.{
  newest_first, latest_first, starts_by_sequence, starts_by_timestamp, select_anchor, anchor_of,
  subscription_anchor,
}
use glacialcast.Relay.Selections.{In, first_by_sound, first_by_empty, first_by_first}
use glacialcast.Relay.Streams.{mark, mark-find}

-- The groups of a stream at which a subscription may start.
abbrev pub Wanted : ℕ → SubscriptionStart → GroupRow → Type 0
Wanted stream SubscriptionStart.live g = g.key.stream_id ≡ stream
Wanted stream SubscriptionStart.oldest_retained g = (g.key.stream_id ≡ stream) × (g.complete ≡ true)
Wanted stream (SubscriptionStart.sequence n) g = (g.key.stream_id ≡ stream) × (g.first_sequence ≤ n)
Wanted stream (SubscriptionStart.timestamp n) g =
    (g.key.stream_id ≡ stream) × (g.first_timestamp ≤ n)

-- The group that it starts at, against another one at which it may start: the first in the stream for the
-- oldest one, and the last one otherwise, by sequence or by time.
abbrev pub Preferred : SubscriptionStart → GroupRow → GroupRow → Type 0
Preferred SubscriptionStart.live g other = other.first_sequence ≤ g.first_sequence
Preferred SubscriptionStart.oldest_retained g other = g.first_sequence ≤ other.first_sequence
Preferred (SubscriptionStart.sequence n) g other = other.first_sequence ≤ g.first_sequence
Preferred (SubscriptionStart.timestamp n) g other =
    (other.first_timestamp < g.first_timestamp)
    ⊎ ((other.first_timestamp ≡ g.first_timestamp) × (other.first_sequence ≤ g.first_sequence))

-- An anchor is the first sequence of the preferred group, or the next live sequence where no group will do.
abbrev pub Anchored : SubscriptionStart → ℕ → Database → ℕ → Type 0
Anchored start stream db anchor =
    ((g : GroupRow) × In g db.groups
      × Wanted stream start g
      × (anchor ≡ g.first_sequence)
      × ((other : GroupRow)
          → In other db.groups
          → Wanted stream start other
          → Preferred start g other))
    ⊎ (((other : GroupRow) → In other db.groups → Wanted stream start other → ⊥)
        × (anchor ≡ suc (mark db.streams stream)))

-- The reading of a query that selects by a test and an order.
query_reading :
    (start : SubscriptionStart) (matches : GroupRow → Bool) (before : GroupRow → GroupRow → Bool)
    (stream : ℕ) (db : Database)
    → ((g : GroupRow) → matches g ≡ true → Wanted stream start g)
    → ((g : GroupRow) → Wanted stream start g → matches g ≡ true)
    → ((g other : GroupRow) → before other g ≡ false → Preferred start g other)
    → ((a b : GroupRow) → before a b ≡ true → before b a ≡ false)
    → ((a b c : GroupRow) → before a b ≡ false → before b c ≡ false → before a c ≡ false)
    → ((a : GroupRow) → before a a ≡ false)
    → Anchored start stream db
        (anchor_of (suc (mark db.streams stream)) (first_by matches before db.groups))
query_reading start matches before stream db sound complete preferred asym trans irrefl =
    elim (Option-cases (first_by matches before db.groups)) [
      | inl nothing ↦ inr (
        λ other there wanted. absurd (
            cc (
              sym (complete other wanted)
              ∙ first_by_empty matches before db.groups other nothing there)),
        ap (anchor_of (suc (mark db.streams stream))) nothing,
      )
      | inr (g, found) ↦
          let (there, holds) = first_by_sound matches before db.groups g found in
          inl (
            g,
            there,
            sound g holds,
            ap (anchor_of (suc (mark db.streams stream))) found,
            λ other of_other wanted. preferred g other (
                first_by_first matches before asym trans irrefl db.groups g other found of_other
                  (complete other wanted)),
          )
    ]

latest :
    (g other : GroupRow)
    → latest_first other g ≡ false
    → (other.first_timestamp < g.first_timestamp)
      ⊎ ((other.first_timestamp ≡ g.first_timestamp) × (other.first_sequence ≤ g.first_sequence))
latest g other h = elim (Bool-cases (ltb other.first_timestamp g.first_timestamp)) [
  | inl t ↦ inl (ground arith)
  | inr f ↦ inr (ground arith)
]

durable_bound : (n : ℕ) {m : ℕ} → to_sql_u64 n ≡ ok m → n ≡ m
durable_bound n h = ground arith

select_anchor-Anchored :
    (db : Database) (stream : ℕ) (start : SubscriptionStart) (selected : Option GroupRow)
    → select_anchor db stream start ≡ ok selected
    → Anchored start stream db (anchor_of (suc (mark db.streams stream)) selected)
unfolding select_anchor
select_anchor-Anchored db stream SubscriptionStart.live selected h =
    subst
      (λ s. Anchored SubscriptionStart.live stream db (anchor_of (suc (mark db.streams stream)) s))
      (ok-injective h)
      (query_reading SubscriptionStart.live (in_stream stream) newest_first stream db
        (λ g m. ground arith) (λ g w. ground arith) (λ g other b. ground arith)
        (λ a b p. ground arith) (λ a b c p q. ground arith) (λ a. ground arith))
select_anchor-Anchored db stream SubscriptionStart.oldest_retained selected h =
    subst
      (λ s.
        Anchored SubscriptionStart.oldest_retained stream db
          (anchor_of (suc (mark db.streams stream)) s))
      (ok-injective h)
      (query_reading SubscriptionStart.oldest_retained (complete_in stream) by_sequence stream db
        (λ g m. ground arith) (λ g w. ground arith) (λ g other b. ground arith)
        (λ a b p. ground arith) (λ a b c p q. ground arith) (λ a. ground arith))
select_anchor-Anchored db stream (SubscriptionStart.sequence n) selected h =
    let (bound, e, k) = >>=-eq-ok {E = StoreError} (to_sql_u64 n) _ h in
    subst
      (λ s.
        Anchored (SubscriptionStart.sequence n) stream db
          (anchor_of (suc (mark db.streams stream)) s))
      (ap (λ (m : ℕ). first_by (starts_by_sequence stream m) newest_first db.groups)
          (durable_bound n e)
        ∙ ok-injective k)
      (query_reading (SubscriptionStart.sequence n) (starts_by_sequence stream n) newest_first
        stream db (λ g m. ground arith) (λ g w. ground arith) (λ g other b. ground arith)
        (λ a b p. ground arith) (λ a b c p q. ground arith) (λ a. ground arith))
select_anchor-Anchored db stream (SubscriptionStart.timestamp n) selected h =
    let (bound, e, k) = >>=-eq-ok {E = StoreError} (to_sql_u64 n) _ h in
    subst
      (λ s.
        Anchored (SubscriptionStart.timestamp n) stream db
          (anchor_of (suc (mark db.streams stream)) s))
      (ap (λ (m : ℕ). first_by (starts_by_timestamp stream m) latest_first db.groups)
          (durable_bound n e)
        ∙ ok-injective k)
      (query_reading (SubscriptionStart.timestamp n) (starts_by_timestamp stream n) latest_first
        stream db (λ g m. ground arith) (λ g w. ground arith) (λ g other b. latest g other b)
        (λ a b p. ground arith) (λ a b c p q. ground arith) (λ a. ground arith))

-- When subscription_anchor returns, it returns the first sequence of the last group by sequence
-- of the stream (live), of the first complete group (oldest retained), or of the last group
-- that starts at or before the sequence or the timestamp asked for, and the high-water mark
-- plus one where there is no such group.
pub subscription_anchor-Anchored :
    (db : Database) (stream : ℕ) (start : SubscriptionStart) (anchor : ℕ)
    → subscription_anchor db stream start ≡ ok anchor
    → Anchored start stream db anchor
unfolding subscription_anchor
subscription_anchor-Anchored db stream start anchor h =
    let (row, e1, k1) = >>=-eq-ok (ok_or (find (of_stream stream) db.streams) missing_row) _ h in
    let (selected, e2, k2) = >>=-eq-ok (select_anchor db stream start) _ k1 in
    let live : row.high_water + 1 ≡ suc (mark db.streams stream) =
      omega (arith, mark-find stream db.streams row (ok_or_inv _ _ e1)) in
    subst (Anchored start stream db)
      (ap (λ (n : ℕ). anchor_of n selected) (sym live) ∙ ok-injective k2)
      (select_anchor-Anchored db stream start selected e2)
