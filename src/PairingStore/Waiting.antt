-- ===== src/PairingStore/Waiting.antt =====
-- crates/relay/src/pairing_store.rs: the rows that wait for a publisher, and their order of arrival, apart from
-- the statements that select and sort them.
use mathlib.Core.List.{Perm}
use mathlib.Core.List.Perm
use glacialcast.Prelude.{
  ℕ, ◌≤◌, ◌≡◌, refl, sym, ◌⊎◌, inl, inr, Bool, true, false, not, ◌&&◌, ◌||◌, Option, none, some,
  List, [], ◌∷◌, All, All-imp, ℤ, pos, negsuc, ◌<ℤ◌, ◌≤ℤ◌, ltb_ℤ, ◌==◌, ltb, is_some, arith,
  Bool-cases,
}
use glacialcast.Credential.Windows.{leb_ℤ-false, ltb_ℤ-false}
use glacialcast.Relay.Statements.{delete_where, select, insert_ordered, order_by}
use glacialcast.PairingStore.Rows.{PairRow}
use glacialcast.PairingStore.Statements.{pending_for, is_purged, purge}
use glacialcast.PairingStore.Inbox.{received_before}
use glacialcast.PairingStore.Tables.{insert_ordered-All}
use glacialcast.PairingStore.Listings.{unexpired}

-- A row of a publisher that has no decision and has not expired.
abbrev pub Waiting : ℕ → ℤ → PairRow → Type 0
Waiting publisher_id now_ms row =
    (row.publisher_id ≡ publisher_id) × (row.decision ≡ none) × (now_ms <ℤ row.expires_at_ms)

-- The rows of a table that wait, as they stand.
pub data Picks (publisher_id : ℕ) (now_ms : ℤ) : List PairRow → List PairRow → Type 0 where
  nothing_left : Picks publisher_id now_ms [] []
  picked :
      (row : PairRow) (rows chosen : List PairRow)
      → Waiting publisher_id now_ms row
      → Picks publisher_id now_ms rows chosen
      → Picks publisher_id now_ms (row ∷ rows) (row ∷ chosen)
  passed :
      (row : PairRow) (rows chosen : List PairRow)
      → ¬ Waiting publisher_id now_ms row
      → Picks publisher_id now_ms rows chosen
      → Picks publisher_id now_ms (row ∷ rows) chosen

-- One row arrived no later than another; at one time, the request identifiers decide.
abbrev pub NoLater : PairRow → PairRow → Type 0
NoLater a b =
    (a.received_at_ms <ℤ b.received_at_ms)
    ⊎ ((a.received_at_ms ≤ℤ b.received_at_ms) × (a.request_id ≤ b.request_id))

abbrev pub InOrder : List PairRow → Type 0
InOrder [] = Unit
InOrder (row ∷ rows) = All (NoLater row) rows × InOrder rows

NoLater-trans : (a b c : PairRow) → NoLater a b → NoLater b c → NoLater a c
NoLater-trans a b c (inl p) (inl q) = inl (omega arith)
NoLater-trans a b c (inl p) (inr (q, i)) = inl (omega arith)
NoLater-trans a b c (inr (p, i)) (inl q) = inl (omega arith)
NoLater-trans a b c (inr (p, i)) (inr (q, j)) = inr (omega arith, omega arith)

before_cases :
    (early late less : Bool)
    → (early || not late && less) ≡ true
    → (early ≡ true) ⊎ ((late ≡ false) × (less ≡ true))
before_cases true late less h = inl refl
before_cases false true less h = absurd (cc h)
before_cases false false less h = inr (refl, h)

after_cases :
    (early late less : Bool)
    → (early || not late && less) ≡ false
    → (early ≡ false) × ((late ≡ true) ⊎ (less ≡ false))
after_cases true late less h = absurd (cc h)
after_cases false true less h = (refl, inl refl)
after_cases false false less h = (refl, inr h)

ltb_ℤ_sound : (a b : ℤ) → ltb_ℤ a b ≡ true → a <ℤ b
ltb_ℤ_sound (pos a) (pos b) h = ground arith
ltb_ℤ_sound (pos a) (negsuc b) h = absurd (cc h)
ltb_ℤ_sound (negsuc a) (pos b) h = ground arith
ltb_ℤ_sound (negsuc a) (negsuc b) h = ground arith

received_before-NoLater : (a b : PairRow) → received_before a b ≡ true → NoLater a b
received_before-NoLater a b h =
    elim (before_cases (ltb_ℤ a.received_at_ms b.received_at_ms)
      (ltb_ℤ b.received_at_ms a.received_at_ms) (ltb a.request_id b.request_id) h) [
        | inl early ↦ inl (ltb_ℤ_sound a.received_at_ms b.received_at_ms early)
        | inr (late, less) ↦
            inr ((ltb_ℤ-false a.received_at_ms b.received_at_ms).0 late, ground arith)
      ]

NoLater-received_before : (a b : PairRow) → received_before b a ≡ false → NoLater a b
NoLater-received_before a b h =
    let (early, rest) =
      after_cases (ltb_ℤ b.received_at_ms a.received_at_ms)
        (ltb_ℤ a.received_at_ms b.received_at_ms) (ltb b.request_id a.request_id) h in
    elim rest [
      | inl late ↦ inl (ltb_ℤ_sound a.received_at_ms b.received_at_ms late)
      | inr less ↦ inr ((ltb_ℤ-false a.received_at_ms b.received_at_ms).0 early, ground arith)
    ]

insert_ordered-InOrder :
    (row : PairRow) (rows : List PairRow)
    → InOrder rows
    → InOrder (insert_ordered received_before row rows)
unfolding insert_ordered
insert_ordered-InOrder row [] sorted = (tt, tt)
insert_ordered-InOrder row (r ∷ rows) (first, sorted) = elim (Bool-cases (received_before r row)) [
  | inl t ↦ rw t (
    insert_ordered-All (NoLater r) received_before row rows (received_before-NoLater r row t) first,
    insert_ordered-InOrder row rows sorted,
  )
  | inr f ↦
      let lower = NoLater-received_before row r f in
      rw f (
        (lower, All-imp (NoLater r) (NoLater row) rows (λ x. NoLater-trans row r x lower) first),
        (first, sorted),
      )
]

pub order_by-InOrder : (rows : List PairRow) → InOrder (order_by received_before rows)
unfolding order_by
order_by-InOrder [] = tt
order_by-InOrder (r ∷ rows) =
    insert_ordered-InOrder r (order_by received_before rows) (order_by-InOrder rows)

insert_ordered-perm :
    (row : PairRow) (rows : List PairRow)
    → Perm (insert_ordered received_before row rows) (row ∷ rows)
unfolding insert_ordered
insert_ordered-perm row [] = Perm.refl (row ∷ [])
insert_ordered-perm row (r ∷ rows) = elim (Bool-cases (received_before r row)) [
  | inl t ↦ rw t (Perm.trans (Perm.cons r (insert_ordered-perm row rows)) (Perm.swap row r rows))
  | inr f ↦ rw f (Perm.refl (row ∷ (r ∷ rows)))
]

pub order_by-perm : (rows : List PairRow) → Perm (order_by received_before rows) rows
unfolding order_by
order_by-perm [] = Perm.refl []
order_by-perm (r ∷ rows) =
    Perm.trans (insert_ordered-perm r (order_by received_before rows))
      (Perm.cons r (order_by-perm rows))

purged_unfit :
    (publisher_id : ℕ) (now_ms : ℤ) (row : PairRow)
    → is_purged now_ms row ≡ true
    → ¬ Waiting publisher_id now_ms row
purged_unfit publisher_id now_ms row h (own, undecided, alive) =
    let late = (leb_ℤ-false now_ms row.expires_at_ms).1 alive in
    absurd (cc (sym (rw (undecided, late) at h)))

no_decision : {A : Type 0} (o : Option A) → is_some o ≡ false → o ≡ none
no_decision none h = refl
no_decision (some a) h = absurd (cc h)

both_hold :
    (named decided : Bool) → (named && not decided) ≡ true → (named ≡ true) × (decided ≡ false)
both_hold named decided h = ground arith

pending_waits :
    (publisher_id : ℕ) (now_ms : ℤ) (row : PairRow)
    → is_purged now_ms row ≡ false
    → pending_for publisher_id row ≡ true
    → Waiting publisher_id now_ms row
pending_waits publisher_id now_ms row kept pending =
    let (own, undecided) =
      both_hold (row.publisher_id == publisher_id) (is_some row.decision) pending in
    (
      ground arith,
      no_decision row.decision undecided,
      (leb_ℤ-false now_ms row.expires_at_ms).0 (unexpired row publisher_id now_ms kept pending),
    )

other_unfit :
    (publisher_id : ℕ) (now_ms : ℤ) (row : PairRow)
    → pending_for publisher_id row ≡ false
    → ¬ Waiting publisher_id now_ms row
other_unfit publisher_id now_ms row other (own, undecided, alive) =
    let apart : (row.publisher_id == publisher_id && true) ≡ false = rw undecided at other in
    absurd (ground arith)

pub select-Picks :
    (publisher_id : ℕ) (now_ms : ℤ) (rows : List PairRow)
    → Picks publisher_id now_ms rows (select (pending_for publisher_id) (purge rows now_ms))
unfolding select purge delete_where
select-Picks publisher_id now_ms [] = nothing_left
select-Picks publisher_id now_ms (r ∷ rows) = elim (Bool-cases (is_purged now_ms r)) [
  | inl gone ↦ rw gone (
      passed r rows _ (purged_unfit publisher_id now_ms r gone)
        (select-Picks publisher_id now_ms rows))
  | inr kept ↦ rw kept (elim (Bool-cases (pending_for publisher_id r)) [
    | inl waits ↦ rw waits (
        picked r rows _ (pending_waits publisher_id now_ms r kept waits)
          (select-Picks publisher_id now_ms rows))
    | inr other ↦ rw other (
        passed r rows _ (other_unfit publisher_id now_ms r other)
          (select-Picks publisher_id now_ms rows))
  ])
]
