-- ===== src/Relay/Streams.antt =====
-- crates/relay/src/native_store.rs: which of the store's transactions change the table of streams, and how
-- they change its high-water marks.
use glacialcast.Prelude.{
  ℕ, ◌≡◌, refl, false, some, List, [], ◌∷◌, ℤ, arith, ok, ◌==◌, is_some, if◌then◌else◌,
}
use glacialcast.Relay.Rows.{
  NativeStore, StreamRow, GroupKey, GroupRow, ObjectRow, EnvelopeRow, Database,
}
use glacialcast.Relay.Statements.{
  find, update_one, of_stream, insert_group, insert_object, insert_envelope, update_group,
  delete_group, update_one,
}
use glacialcast.Relay.Retention.{enforce_retention}
use glacialcast.Relay.Loop.{enforce_retention_inv}

-- The high-water mark of a stream, or 0 for a stream that is not there.
unfoldable pub mark : List StreamRow → ℕ → ℕ
mark [] s = 0
mark (row ∷ rows) s = if row.stream_id == s then row.high_water else mark rows s

-- An update of other columns leaves the marks.
pub mark-update_same :
    (change : StreamRow → StreamRow) (id s : ℕ) (rows : List StreamRow)
    → ((row : StreamRow) → (change row).stream_id ≡ row.stream_id)
    → ((row : StreamRow) → (change row).high_water ≡ row.high_water)
    → mark (update_one (of_stream id) change rows) s ≡ mark rows s
unfolding mark update_one
mark-update_same change id s [] same_id same_mark = refl
mark-update_same change id s (row ∷ rows) same_id same_mark =
    ground (arith, same_id row, same_mark row, mark-update_same change id s rows same_id same_mark)

-- The update of the mark of a stream that is there.
pub mark-update_set :
    (q id s : ℕ) (rows : List StreamRow) (row : StreamRow)
    → find (of_stream id) rows ≡ some row
    → mark (update_one (of_stream id) (λ r. record r { high_water = q }) rows) s
      ≡ (if s == id then q else mark rows s)
unfolding mark update_one find
mark-update_set q id s [] row h = absurd (cc h)
mark-update_set q id s (r ∷ rows) row h = ground (arith, mark-update_set q id s rows row)

pub mark-find :
    (s : ℕ) (rows : List StreamRow) (row : StreamRow)
    → find (of_stream s) rows ≡ some row
    → mark rows s ≡ row.high_water
unfolding mark find
mark-find s [] row h = absurd (cc h)
mark-find s (r ∷ rows) row h = ground (arith, mark-find s rows row)

pub mark-missing :
    (s : ℕ) (rows : List StreamRow) → is_some (find (of_stream s) rows) ≡ false → mark rows s ≡ 0
unfolding mark find
mark-missing s [] h = refl
mark-missing s (r ∷ rows) h = ground (arith, mark-missing s rows)

pub find-update_one :
    (id : ℕ) (change : StreamRow → StreamRow) (rows : List StreamRow) (row : StreamRow)
    → ((r : StreamRow) → (change r).stream_id ≡ r.stream_id)
    → find (of_stream id) rows ≡ some row
    → find (of_stream id) (update_one (of_stream id) change rows) ≡ some (change row)
unfolding find update_one
find-update_one id change [] row same h = absurd (cc h)
find-update_one id change (r ∷ rows) row same h =
    ground (arith, same r, find-update_one id change rows row same)

-- The statements on the other tables.
pub insert_group-streams :
    (db db' : Database) (row : GroupRow) → insert_group db row ≡ ok db' → db'.streams ≡ db.streams
unfolding insert_group
insert_group-streams db db' row h = ground arith

pub insert_object-streams :
    (db db' : Database) (row : ObjectRow) → insert_object db row ≡ ok db' → db'.streams ≡ db.streams
unfolding insert_object
insert_object-streams db db' row h = ground arith

pub insert_envelope-streams :
    (db db' : Database) (row : EnvelopeRow)
    → insert_envelope db row ≡ ok db'
    → db'.streams ≡ db.streams
unfolding insert_envelope
insert_envelope-streams db db' row h = ground arith

pub update_group-streams :
    (db db' : Database) (key : GroupKey) (change : GroupRow → GroupRow)
    → update_group db key change ≡ ok db'
    → db'.streams ≡ db.streams
unfolding update_group
update_group-streams db db' key change h = ground arith

-- Retention does not touch the streams.
pub enforce_retention-streams :
    (store : NativeStore) (db db' : Database) (stream : ℕ) (now : ℤ) (n : ℕ)
    → enforce_retention store db stream now ≡ ok (n, db')
    → db'.streams ≡ db.streams
unfolding delete_group
enforce_retention-streams store db db' stream now n h =
    enforce_retention_inv (λ d. d.streams ≡ db.streams) store stream now n db db'
      (λ d g same found. same) refl h
