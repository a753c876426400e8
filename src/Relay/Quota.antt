-- ===== src/Relay/Quota.antt =====
-- crates/relay/src/native_store.rs: the byte accounting of groups under single statements.
use glacialcast.Prelude.{
  ℕ, ◌+◌, ◌<◌, ◌≤◌, ◌≡◌, refl, subst, inl, inr, Bool, true, false, ◌||◌, some, some-injective, List,
  [], ◌∷◌, All, arith, ok, fail_if, ok_or, ltb, leb, Bool-cases, >>=-eq-ok,
}
use glacialcast.Native.Inversions.{not_refused, ok_or_inv}
use glacialcast.Relay.Rows.{
  missing_row, group_limit, byte_quota, GroupItemKind, NativeStore, GroupKey, GroupRow, Database,
  i64_half, saturating_add,
}
use glacialcast.Relay.Statements.{
  find, of_group, update_one, delete_one, delete_group, bytes_where, sum_bytes,
}
use glacialcast.Relay.Retention.{check_group_growth, item_limit, item_count, published_by}
use glacialcast.Relay.Rowsets.{bytes_where-delete_one}

-- All the bytes that the store counts.
abbrev pub total_bytes : Database → ℕ
total_bytes db = bytes_where (λ g. true) db.groups

-- The store's accounting is within its limits: in total, and group by group.
pub record WithinQuota (store : NativeStore) (db : Database) : Type 0 where
  pub total : total_bytes db ≤ store.limits.max_total_bytes
  pub each : All (λ (g : GroupRow). g.retained_bytes ≤ store.limits.max_group_bytes) db.groups

sum_bytes_inv :
    (matches : GroupRow → Bool) (groups : List GroupRow) {n : ℕ}
    → sum_bytes matches groups ≡ ok n
    → (n ≡ bytes_where matches groups) × (bytes_where matches groups < i64_half)
unfolding sum_bytes
sum_bytes_inv matches groups h = ground arith

within_saturated :
    (limit a b : ℕ) (other : Bool)
    → a < i64_half
    → b < i64_half
    → (ltb limit (saturating_add a b) || other) ≡ false
    → a + b ≤ limit
within_saturated limit a b other small_a small_b h = ground arith

-- What the check of a group's growth allows.
pub check_group_growth-Fits :
    (store : NativeStore) (db : Database) (publisher : ℕ) (key : GroupKey) (added : ℕ)
    (kind : GroupItemKind)
    → added < i64_half
    → check_group_growth store db publisher key added kind ≡ ok tt
    → (g : GroupRow) × (find (of_group key) db.groups ≡ some g)
      × ((ltb store.limits.max_group_bytes (saturating_add g.retained_bytes added)) ≡ false)
      × (total_bytes db + added ≤ store.limits.max_total_bytes)
unfolding check_group_growth
check_group_growth-Fits store db publisher key added kind small h =
    let (g, e1, k1) = >>=-eq-ok (ok_or (find (of_group key) db.groups) missing_row) _ h in
    let (u2, e2, k2) =
      >>=-eq-ok
        (fail_if
          (leb (item_limit store kind) (item_count db kind key)
            || ltb store.limits.max_group_bytes (saturating_add g.retained_bytes added))
          group_limit)
        _ k1 in
    let (sum, e3, k3) = >>=-eq-ok (sum_bytes (λ g. true) db.groups) _ k2 in
    let (own, e4, k4) = >>=-eq-ok (sum_bytes (published_by db publisher) db.groups) _ k3 in
    let (counted, bounded) = sum_bytes_inv (λ g. true) db.groups e3 in
    (
      g,
      ok_or_inv _ _ e1,
      second_false _ _ (not_refused _ group_limit e2),
      omega (
        arith,
        counted,
        within_saturated store.limits.max_total_bytes sum added
            (ltb store.limits.max_publisher_bytes (saturating_add own added)) (omega arith) small
            (not_refused _ byte_quota k4),
      ),
    )
  where
    second_false : (a b : Bool) → (a || b) ≡ false → b ≡ false
    second_false a b h = ground arith

-- An update of one group changes the total by what it adds.
pub bytes_where-grow :
    (key : GroupKey) (change : GroupRow → GroupRow) (added : ℕ) (rows : List GroupRow)
    (g : GroupRow)
    → ((r : GroupRow) → (change r).retained_bytes ≡ r.retained_bytes + added)
    → find (of_group key) rows ≡ some g
    → bytes_where (λ g. true) (update_one (of_group key) change rows)
      ≡ bytes_where (λ g. true) rows + added
unfolding bytes_where update_one find
bytes_where-grow key change added [] g grows h = absurd (cc h)
bytes_where-grow key change added (r ∷ rows) g grows h = elim (Bool-cases (of_group key r)) [
  | inl t ↦ rw t (omega (arith, grows r))
  | inr f ↦ rw f (omega (arith, bytes_where-grow key change added rows g grows (rw f at h)))
]

pub bytes_where-same :
    (key : GroupKey) (change : GroupRow → GroupRow) (rows : List GroupRow)
    → ((r : GroupRow) → (change r).retained_bytes ≡ r.retained_bytes)
    → bytes_where (λ g. true) (update_one (of_group key) change rows) ≡ bytes_where (λ g. true) rows
unfolding bytes_where update_one
bytes_where-same key change [] same = refl
bytes_where-same key change (r ∷ rows) same =
    ground (arith, same r, bytes_where-same key change rows same)

pub update_one-All :
    {A : Type 0} (P : A → Type 0) (matches : A → Bool) (change : A → A) (rows : List A)
    → All P rows
    → ((r : A) → find matches rows ≡ some r → P (change r))
    → All P (update_one matches change rows)
unfolding update_one find
update_one-All P matches change [] all step = tt
update_one-All P matches change (r ∷ rows) all step = elim (Bool-cases (matches r)) [
  | inl t ↦ rw t (step r (rw t refl), all.1)
  | inr f ↦
      rw f (all.0, update_one-All P matches change rows all.1 (λ x found. step x (rw f found)))
]

pub find-All :
    {A : Type 0} (P : A → Type 0) (matches : A → Bool) (rows : List A) (row : A)
    → All P rows
    → find matches rows ≡ some row
    → P row
unfolding find
find-All P matches [] row all h = absurd (cc h)
find-All P matches (r ∷ rows) row all h = elim (Bool-cases (matches r)) [
  | inl t ↦ subst P (some-injective r row (rw t at h)) all.0
  | inr f ↦ find-All P matches rows row all.1 (rw f at h)
]

delete_one-All :
    {A : Type 0} (P : A → Type 0) (matches : A → Bool) (rows : List A)
    → All P rows
    → All P (delete_one matches rows)
unfolding delete_one
delete_one-All P matches [] all = tt
delete_one-All P matches (r ∷ rows) all = elim (Bool-cases (matches r)) [
  | inl t ↦ rw t all.1
  | inr f ↦ rw f (all.0, delete_one-All P matches rows all.1)
]

pub delete_group-WithinQuota :
    (store : NativeStore) (db : Database) (key : GroupKey)
    → WithinQuota store db
    → WithinQuota store (delete_group db key)
unfolding delete_group
delete_group-WithinQuota store db key q = record {
  total = omega (arith, q.total, bytes_where-delete_one (λ g. true) key db.groups);
  each = delete_one-All _ (of_group key) db.groups q.each;
}
