-- ===== src/Relay/Sequences.antt =====
-- crates/relay/src/native_store.rs: histories of calls of the store, and the sequences that they acknowledge.
use glacialcast.Prelude.{
  ℕ, zero, suc, ◌+◌, ◌≡◌, refl, sym, ap, ◌∙◌, ◌⊎◌, inl, inr, Bool, false, ◌&&◌, List, [], ◌∷◌, ◌++◌,
  length, ℤ, arith, Result, ok, err, ◌==◌, ==_iff, Bool-cases, Result-cases, if◌then◌else◌,
}
use glacialcast.Native.Types.{NativeObject, StreamDescriptor}
use glacialcast.Native.EnvelopeTypes.{KeyEnvelope}
use glacialcast.Native.External.{External}
use glacialcast.Relay.Rows.{StoreError, NativeStore, NativeCommit, Database}
use glacialcast.Relay.Statements.{order_by}
use glacialcast.Relay.Store.{put_descriptor, store_object}
use glacialcast.Relay.Upkeep.{store_envelope, enforce_retention_at, finalize_stream, stream_before}
use glacialcast.Relay.Streams.{mark}
use glacialcast.Relay.History.{store_object-Stores}
use glacialcast.Relay.Marks.{
  enforce_all-streams, finalize_stream-mark, put_descriptor-mark, store_envelope-streams,
}

-- A call of the store, and the tables after it: those before it where it fails.
pub data Request : Type 0 where
  put : StreamDescriptor → Request
  store : NativeObject → ℤ → Request
  share : KeyEnvelope → ℤ → Request
  expire : ℤ → Request
  finalize : ℕ → Request

abbrev pub after_result {ℓ} : {A : Type ℓ} → Database → Result StoreError (A × Database) → Database
after_result db (ok (a, db')) = db'
after_result db (err e) = db

abbrev pub after_put : Database → Result StoreError Database → Database
after_put db (ok db') = db'
after_put db (err e) = db

-- The sequence that a call acknowledges as new in a stream.
abbrev pub acknowledged : ℕ → NativeObject → Result StoreError (NativeCommit × Database) → List ℕ
acknowledged stream o (ok (commit, db)) =
    if commit.inserted && o.header.stream_id == stream then commit.committed_through ∷ [] else []
acknowledged stream o (err e) = []

module _ (ext : External) (limits : NativeStore) where
  unfoldable pub call : Database → Request → Database
  call db (put d) = after_put db (put_descriptor ext limits db d)
  call db (store o now) = after_result db (store_object ext limits db o now)
  call db (share e now) = after_result db (store_envelope ext limits db e now)
  call db (expire now) = after_result db (enforce_retention_at limits db now)
  call db (finalize stream) = finalize_stream db stream

  unfoldable pub answer : ℕ → Database → Request → List ℕ
  answer stream db (put d) = []
  answer stream db (store o now) = acknowledged stream o (store_object ext limits db o now)
  answer stream db (share e now) = []
  answer stream db (expire now) = []
  answer stream db (finalize s) = []

  unfoldable pub answers : ℕ → Database → List Request → List ℕ
  answers stream db [] = []
  answers stream db (r ∷ rs) = answer stream db r ++ answers stream (call db r) rs

  unfoldable pub calls : Database → List Request → Database
  calls db [] = db
  calls db (r ∷ rs) = calls (call db r) rs

-- `count` numbers from one on.
unfoldable pub count_from : ℕ → ℕ → List ℕ
count_from n zero = []
count_from n (suc k) = n ∷ count_from (suc n) k

module _ (ext : External) (limits : NativeStore) (stream : ℕ) where
  -- A call acknowledges nothing new in the stream, or its next sequence.
  abbrev Answers : Database → Request → Type 0
  Answers db r =
      ((answer ext limits stream db r ≡ [])
        × (mark (call ext limits db r).streams stream ≡ mark db.streams stream))
      ⊎ ((answer ext limits stream db r ≡ suc (mark db.streams stream) ∷ [])
          × (mark (call ext limits db r).streams stream ≡ suc (mark db.streams stream)))

  store-Answers : (db : Database) (o : NativeObject) (now : ℤ) → Answers db (store o now)
  unfolding answer call
  store-Answers db o now = elim (Result-cases (store_object ext limits db o now)) [
    | inr (e, failed) ↦ inl (rw failed refl, rw failed refl)
    | inl ((commit, db'), stored) ↦
        let (through, cases) = store_object-Stores ext limits db db' o now commit stored in
        elim cases [
          | inl (old, same, row, publisher, found, encodes) ↦
              inl (
                rw (stored, old) refl,
                rw stored (ap (λ (d : Database). mark d.streams stream) same),
              )
          | inr (new, (next, marks), publisher, encoded, encodes, written) ↦
              elim (Bool-cases (o.header.stream_id == stream)) [
                | inl t ↦
                    let here = (==_iff o.header.stream_id stream).0 t in
                    let number : o.header.sequence ≡ suc (mark db.streams stream) =
                      next ∙ ap (λ (s : ℕ). suc (mark db.streams s)) here in
                    inr (
                      rw (stored, new, t) (ap (λ (n : ℕ). n ∷ []) (through ∙ number)),
                      rw stored (
                          marks stream
                          ∙ ap
                              (λ (b : Bool).
                                if b then o.header.sequence else mark db.streams stream)
                              ((==_iff stream o.header.stream_id).1 (sym here))
                          ∙ number),
                    )
                | inr f ↦ inl (
                  rw (stored, new, f) refl,
                  rw stored (
                      marks stream
                      ∙ ap (λ (b : Bool). if b then o.header.sequence else mark db.streams stream)
                          (flipped stream o.header.stream_id f)),
                )
              ]
        ]
  ]
    where
      flipped : (a b : ℕ) → (b == a) ≡ false → (a == b) ≡ false
      flipped a b h = ground arith

  after_result-mark :
      {A : Type 0} (db : Database) (m : Result StoreError (A × Database))
      → ((a : A) (db' : Database) → m ≡ ok (a, db') → db'.streams ≡ db.streams)
      → mark (after_result db m).streams stream ≡ mark db.streams stream
  after_result-mark db (ok (a, db')) same = ap (λ rows. mark rows stream) (same a db' refl)
  after_result-mark db (err e) same = refl

  after_put-mark :
      (db : Database) (m : Result StoreError Database)
      → ((db' : Database) → m ≡ ok db' → mark db'.streams stream ≡ mark db.streams stream)
      → mark (after_put db m).streams stream ≡ mark db.streams stream
  after_put-mark db (ok db') same = same db' refl
  after_put-mark db (err e) same = refl

  call-Answers : (db : Database) (r : Request) → Answers db r
  unfolding answer call enforce_retention_at
  call-Answers db (store o now) = store-Answers db o now
  call-Answers db (put d) = inl (
    refl,
    after_put-mark db (put_descriptor ext limits db d)
        (λ db' h. put_descriptor-mark ext limits db db' d stream h),
  )
  call-Answers db (share e now) = inl (
    refl,
    after_result-mark db (store_envelope ext limits db e now)
        (λ b db' h. store_envelope-streams ext limits db db' e now b h),
  )
  call-Answers db (expire now) = inl (
    refl,
    after_result-mark db (enforce_retention_at limits db now) (λ n db' h.
        enforce_all-streams limits now 0 n db db' (order_by stream_before db.streams) h),
  )
  call-Answers db (finalize s) = inl (refl, finalize_stream-mark db s stream)

  -- Over any history of calls of the store, failed calls and retries included, the sequences
  -- that store_object acknowledges as newly inserted in a stream count up by one from the
  -- stream's high-water mark without a gap, and the mark ends at the last of them.
  pub answers-count_from :
      (db : Database) (rs : List Request)
      → (answers ext limits stream db rs
          ≡ count_from (suc (mark db.streams stream)) (length (answers ext limits stream db rs)))
        × (mark (calls ext limits db rs).streams stream
            ≡ mark db.streams stream + length (answers ext limits stream db rs))
  unfolding answers calls count_from
  answers-count_from db [] = (refl, omega arith)
  answers-count_from db (r ∷ rs) =
      let next = call ext limits db r in
      let (numbers, last) = answers-count_from next rs in
      let rest = answers ext limits stream next rs in
      elim (call-Answers db r) [
        | inl (nothing, same) ↦ rw nothing (
          numbers ∙ ap (λ (n : ℕ). count_from (suc n) (length rest)) same,
          last ∙ ap (λ (n : ℕ). n + length rest) same,
        )
        | inr (one, moved) ↦ rw one (
          ap (λ (l : List ℕ). suc (mark db.streams stream) ∷ l)
              (numbers ∙ ap (λ (n : ℕ). count_from (suc n) (length rest)) moved),
          omega (arith, last, moved),
        )
      ]
