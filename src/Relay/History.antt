-- ===== src/Relay/History.antt =====
-- crates/relay/src/native_store.rs: the outcomes of `store_object`.
use glacialcast.Prelude.{
  ℕ, ◌≡◌, refl, sym, ap, ◌∙◌, subst, ◌⊎◌, inl, inr, true, false, not, Option, none, some, Bytes, ℤ,
  arith, Result, ok, err, fail_if, ok_or, same_bytes, same_bytes_sound, >>=-eq-ok, ok-injective,
}
use glacialcast.Native.Types.{IdentityPublic, NativeObject}
use glacialcast.Native.External.{External}
use glacialcast.Native.Object.{validate_shape, verify_public, encode_object}
use glacialcast.Native.Inversions.{not_refused}
use glacialcast.Relay.Rows.{
  StoreError, invalid_object, no_descriptor, conflicting_retry, NativeStore, NativeCommit,
  ObjectRow, Database, to_sql_u64,
}
use glacialcast.Relay.Statements.{find, object_at}
use glacialcast.Relay.Groups.{in_context, descriptor_in}
use glacialcast.Relay.Store.{store_encoded, store_object}
use glacialcast.Relay.Appended.{append_object-Appended, true_of_unnegated, to_sql_u64_inv}
use glacialcast.Relay.Appending.{Inserts, Appended-Inserts}
use glacialcast.Relay.Objects.{object_row, Writes}
use glacialcast.Relay.Storing.{Appended-Writes}

in_context_inv :
    {E A : Type 0} (wrap : E → StoreError) (m : Result E A) {a : A}
    → in_context wrap m ≡ ok a
    → m ≡ ok a
in_context_inv wrap (ok x) h = ground arith
in_context_inv wrap (err e) h = absurd (cc h)

-- What a `store_object` that succeeds did: nothing, for an object that is stored with the same bytes, or
-- the insertion of the next sequence with the bytes that encode the object.
abbrev pub Stores : External → Database → NativeObject → ℤ → NativeCommit → Database → Type 0
Stores ext db o now commit db' =
    (commit.committed_through ≡ o.header.sequence)
    × (((commit.inserted ≡ false)
          × (db' ≡ db)
          × (row : ObjectRow) × (publisher : IdentityPublic) × (find
                (object_at o.header.stream_id o.header.sequence) db.objects
              ≡ some row)
          × (encode_object ext o publisher ≡ ok row.object))
        ⊎ ((commit.inserted ≡ true)
            × Inserts o.header.stream_id o.header.sequence db db'
            × (publisher : IdentityPublic) × (encoded : Bytes) × (encode_object ext o publisher
                ≡ ok encoded)
            × Writes (object_row o encoded now) db db'))

module _ (ext : External) (store : NativeStore) where
  store_encoded-Stores :
      (db db' : Database) (o : NativeObject) (publisher : IdentityPublic) (encoded : Bytes)
      (sequence : ℕ) (now : ℤ) (commit : NativeCommit) (found : Option ObjectRow)
      → sequence ≡ o.header.sequence
      → encode_object ext o publisher ≡ ok encoded
      → find (object_at o.header.stream_id sequence) db.objects ≡ found
      → store_encoded ext store db o publisher encoded sequence now found ≡ ok (commit, db')
      → Stores ext db o now commit db'
  unfolding store_encoded
  store_encoded-Stores db db' o publisher encoded sequence now commit (some row) at encodes there
        h =
      let (u, e, k) =
        >>=-eq-ok (fail_if (not (same_bytes row.object encoded)) conflicting_retry) _ h in
      let same : row.object ≡ encoded =
        same_bytes_sound _ _ (true_of_unnegated _ (not_refused _ conflicting_retry e)) in
      let out = ok-injective k in
      (
        ap (λ (r : NativeCommit × Database). r.0.committed_through) (sym out),
        inl (
          ap (λ (r : NativeCommit × Database). r.0.inserted) (sym out),
          ap (λ (r : NativeCommit × Database). r.1) (sym out),
          row,
          publisher,
          subst (λ n. find (object_at o.header.stream_id n) db.objects ≡ some row) at there,
          encodes ∙ ap ok (sym same),
        ),
      )
  store_encoded-Stores db db' o publisher encoded sequence now commit none at encodes there h =
      let w = append_object-Appended ext store db db' o publisher encoded sequence now commit h in
      (
        ap (λ (c : NativeCommit). c.committed_through) w.answers,
        inr (
          ap (λ (c : NativeCommit). c.inserted) w.answers,
          subst (λ n. Inserts o.header.stream_id n db db') at
              (Appended-Inserts ext store db db' o publisher encoded sequence now commit w),
          publisher,
          encoded,
          encodes,
          Appended-Writes ext store db db' o publisher encoded sequence now commit at w,
        ),
      )

  -- A store_object that succeeds acknowledges the object's sequence, and it either changes
  -- nothing, for an object that is stored under that sequence with the bytes that encode it, or
  -- inserts the sequence that follows the stream's high-water mark, sets that mark to it and
  -- leaves the other marks. In the second case the row with the object's group, its sequence,
  -- the time and the bytes that encode it is in the table afterwards, unless the group that it
  -- continues was complete before, and every other row of an object was there before.
  pub store_object-Stores :
      (db db' : Database) (o : NativeObject) (now : ℤ) (commit : NativeCommit)
      → store_object ext store db o now ≡ ok (commit, db')
      → Stores ext db o now commit db'
  unfolding store_object
  store_object-Stores db db' o now commit h =
      let (u1, e1, k1) = >>=-eq-ok (in_context invalid_object (validate_shape ext o)) _ h in
      let (found, e2, k2) = >>=-eq-ok (descriptor_in ext db o.header.stream_id) _ k1 in
      let (d, e3, k3) = >>=-eq-ok (ok_or found no_descriptor) _ k2 in
      let (u4, e4, k4) =
        >>=-eq-ok (in_context invalid_object (verify_public ext o d.body.publisher)) _ k3 in
      let (encoded, e5, k5) =
        >>=-eq-ok (in_context invalid_object (encode_object ext o d.body.publisher)) _ k4 in
      let (sequence, e6, k6) = >>=-eq-ok {E = StoreError} (to_sql_u64 o.header.sequence) _ k5 in
      store_encoded-Stores db db' o d.body.publisher encoded sequence now commit
        (find (object_at o.header.stream_id sequence) db.objects)
        (to_sql_u64_inv ext store o.header.sequence e6) (in_context_inv invalid_object _ e5) refl k6
