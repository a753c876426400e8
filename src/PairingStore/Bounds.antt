-- ===== src/PairingStore/Bounds.antt =====
-- crates/relay/src/pairing_store.rs: the bounds on pending requests and the rate limits.
use glacialcast.Prelude.{
  ℕ, ◌+◌, ◌≤◌, ◌<◌, ◌≡◌, refl, sym, subst, ◌⊎◌, inl, inr, Bool, false, ◌&&◌, List, [], ◌∷◌, ℤ, ok,
  leb, ◌==◌, ==_iff, Bool-cases, >>=-eq-ok, arith, ◌∙◌, some, saturating_sub_ℤ, ap,
}
use glacialcast.Native.External.{External}
use glacialcast.Native.Inversions.{not_refused}
use glacialcast.Pairing.Postcard.{PairingPostcard, PairingPostcardLaws}
use glacialcast.Relay.Statements.{count, update_one}
use glacialcast.PairingStore.Rows.{
  PairingStoreError, global_full, publisher_full, source_limited, identity_limited, PairRow,
  max_pending_global, max_pending_per_publisher, max_requests_per_minute,
}
use glacialcast.PairingStore.Statements.{
  of_request, is_pending, pending_for, recent_from, recent_by, is_purged, purge,
  require_count_below,
}
use glacialcast.PairingStore.Store.{decided, check_limits}
use glacialcast.PairingStore.Effects.{Effect, unchanged, inserts, offers, confirms, decides}
use glacialcast.PairingStore.Calls.{Call, call, calls, time_of, call-Outcome}
use glacialcast.PairingStore.Tables.{count-delete_where, count-update_one}

-- The pending queue is within its bounds, in all and for each publisher.
pub record WithinBounds (rows : List PairRow) : Type 0 where
  pub global : count is_pending rows ≤ max_pending_global
  pub by_publisher :
      (publisher_id : ℕ) → count (pending_for publisher_id) rows ≤ max_pending_per_publisher

require_inv :
    (matches : PairRow → Bool) (rows : List PairRow) (limit : ℕ) (error : PairingStoreError)
    → require_count_below matches rows limit error ≡ ok tt
    → count matches rows < limit
unfolding require_count_below
require_inv matches rows limit error h =
    below (not_refused (leb limit (count matches rows)) error h)
  where
    below : leb limit (count matches rows) ≡ false → count matches rows < limit
    below e = ground arith

-- What an insertion has checked.
abbrev Counted : List PairRow → ℕ → ℕ → List ℕ → ℤ → Type 0
Counted rows publisher_id viewer_id source now_ms =
    (count is_pending rows < max_pending_global)
    × (count (pending_for publisher_id) rows < max_pending_per_publisher)
    × (count (recent_from source (saturating_sub_ℤ now_ms 60_000)) rows < max_requests_per_minute)
    × (count (recent_by viewer_id (saturating_sub_ℤ now_ms 60_000)) rows < max_requests_per_minute)

pub check_limits-Counted :
    (rows : List PairRow) (publisher_id viewer_id : ℕ) (source : List ℕ) (now_ms : ℤ)
    → check_limits rows publisher_id viewer_id source now_ms ≡ ok tt
    → Counted rows publisher_id viewer_id source now_ms
unfolding check_limits
check_limits-Counted rows publisher_id viewer_id source now_ms h =
    let start = saturating_sub_ℤ now_ms 60_000 in
    let (u1, e1, k1) =
      >>=-eq-ok (require_count_below is_pending rows max_pending_global global_full) _ h in
    let (u2, e2, k2) =
      >>=-eq-ok
        (require_count_below (pending_for publisher_id) rows max_pending_per_publisher
          publisher_full)
        _ k1 in
    let (u3, e3, k3) =
      >>=-eq-ok
        (require_count_below (recent_from source (saturating_sub_ℤ now_ms 60_000)) rows
          max_requests_per_minute source_limited)
        _ k2 in
    (
      require_inv is_pending rows max_pending_global global_full e1,
      require_inv (pending_for publisher_id) rows max_pending_per_publisher publisher_full e2,
      require_inv (recent_from source start) rows max_requests_per_minute source_limited e3,
      require_inv (recent_by viewer_id start) rows max_requests_per_minute identity_limited k3,
    )

count-cons-le :
    (matches : PairRow → Bool) (row : PairRow) (rows : List PairRow)
    → count matches (row ∷ rows) ≤ count matches rows + 1
unfolding count
count-cons-le matches row rows = ground arith

count-cons-other :
    (matches : PairRow → Bool) (row : PairRow) (rows : List PairRow)
    → matches row ≡ false
    → count matches (row ∷ rows) ≡ count matches rows
unfolding count
count-cons-other matches row rows h = ground arith

inserted_for :
    (row : PairRow) (rows : List PairRow) (publisher_id : ℕ)
    → count (pending_for row.publisher_id) rows < max_pending_per_publisher
    → count (pending_for publisher_id) rows ≤ max_pending_per_publisher
    → count (pending_for publisher_id) (row ∷ rows) ≤ max_pending_per_publisher
inserted_for row rows publisher_id room bound =
    elim (Bool-cases (row.publisher_id == publisher_id)) [
      | inl same ↦
          subst (λ (p : ℕ). count (pending_for p) (row ∷ rows) ≤ max_pending_per_publisher)
            ((==_iff row.publisher_id publisher_id).0 same)
            (omega (arith, count-cons-le (pending_for row.publisher_id) row rows))
      | inr other ↦ omega (arith, count-cons-other (pending_for publisher_id) row rows (rw other))
    ]

and_false : (a b : Bool) → b ≡ false → (a && b) ≡ false
and_false a b h = ground arith

pending_for_fewer :
    (change : PairRow → PairRow) (p : ℕ) (x : PairRow)
    → (is_pending (change x) ≡ false) ⊎ (is_pending (change x) ≡ is_pending x)
    → (change x).publisher_id ≡ x.publisher_id
    → (pending_for p (change x) ≡ false) ⊎ (pending_for p (change x) ≡ pending_for p x)
pending_for_fewer change p x (inl out) same =
    inl (and_false ((change x).publisher_id == p) (is_pending (change x)) out)
pending_for_fewer change p x (inr kept) same =
    inr (
      ap (λ (n : ℕ). n == p && is_pending (change x)) same
      ∙ ap (λ b. x.publisher_id == p && b) kept)

-- An update that does not make a row pending keeps the bounds.
updated-WithinBounds :
    (matches : PairRow → Bool) (change : PairRow → PairRow) (rows : List PairRow)
    → ((x : PairRow) → (is_pending (change x) ≡ false) ⊎ (is_pending (change x) ≡ is_pending x))
    → ((x : PairRow) → (change x).publisher_id ≡ x.publisher_id)
    → WithinBounds rows
    → WithinBounds (update_one matches change rows)
updated-WithinBounds matches change rows fewer same w = record {
  global = omega (arith, w.global, count-update_one matches is_pending change fewer rows);
  by_publisher = λ p. omega (
    arith,
    w.by_publisher p,
    count-update_one matches (pending_for p) change
        (λ x. pending_for_fewer change p x (fewer x) (same x)) rows,
  );
}

purge-WithinBounds :
    (rows : List PairRow) (now_ms : ℤ) → WithinBounds rows → WithinBounds (purge rows now_ms)
unfolding purge
purge-WithinBounds rows now_ms w = record {
  global = omega (arith, w.global, count-delete_where (is_purged now_ms) is_pending rows);
  by_publisher = λ p.
      omega (arith, w.by_publisher p, count-delete_where (is_purged now_ms) (pending_for p) rows);
}

module _ (ext : External) (post : PairingPostcard) where
  inserted-WithinBounds :
      (row : PairRow) (rows : List PairRow)
      → check_limits rows row.publisher_id row.viewer_id row.source_addr row.received_at_ms ≡ ok tt
      → WithinBounds rows
      → WithinBounds (row ∷ rows)
  inserted-WithinBounds row rows limits w =
      let (global, for_publisher, from_source, by_viewer) =
        check_limits-Counted rows row.publisher_id row.viewer_id row.source_addr row.received_at_ms
          limits in
      record {
        global = omega (arith, count-cons-le is_pending row rows);
        by_publisher = λ p. inserted_for row rows p for_publisher (w.by_publisher p);
      }

  Effect-WithinBounds :
      (rows after : List PairRow)
      → Effect ext post rows after
      → WithinBounds rows
      → WithinBounds after
  Effect-WithinBounds rows after (unchanged same) w = subst WithinBounds (sym same) w
  Effect-WithinBounds rows after (inserts row accepted absent limits same) w =
      subst WithinBounds (sym same) (inserted-WithinBounds row rows limits w)
  Effect-WithinBounds rows after (offers id row r bytes found held empty verified same) w =
      subst WithinBounds (sym same) (
        updated-WithinBounds (of_request id) (λ x. record x { offer = some bytes }) rows
          (λ x. inr refl) (λ x. refl) w)
  Effect-WithinBounds rows after
        (confirms id row r offer bytes found held there empty verified same) w =
      subst WithinBounds (sym same) (
        updated-WithinBounds (of_request id) (λ x. record x { confirmation = some bytes }) rows
          (λ x. inr refl) (λ x. refl) w)
  Effect-WithinBounds rows after (decides id row r bytes now_ms found held empty verified same) w =
      subst WithinBounds (sym same) (
        updated-WithinBounds (of_request id) (decided bytes now_ms) rows (λ x. inl refl) (λ x. refl)
          w)

  module _ (laws : PairingPostcardLaws post) where
    call-WithinBounds :
        (rows : List PairRow) (c : Call) → WithinBounds rows → WithinBounds (call ext post rows c)
    call-WithinBounds rows c w = elim (call-Outcome ext post laws rows c) [
      | inl same ↦ subst WithinBounds (sym same) w
      | inr effect ↦
          Effect-WithinBounds (purge rows (time_of c)) (call ext post rows c) effect
            (purge-WithinBounds rows (time_of c) w)
    ]

    -- Where Postcard reads back what it wrote, if at most MAX_PENDING_GLOBAL rows are pending,
    -- and at most MAX_PENDING_PER_PUBLISHER for each publisher, it is so after any history of
    -- calls of the pairing store.
    pub calls-WithinBounds :
        (rows : List PairRow) (history : List Call)
        → WithinBounds rows
        → WithinBounds (calls ext post rows history)
    unfolding calls
    calls-WithinBounds rows [] w = w
    calls-WithinBounds rows (c ∷ cs) w =
        calls-WithinBounds (call ext post rows c) cs (call-WithinBounds rows c w)
