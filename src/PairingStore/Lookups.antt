-- ===== src/PairingStore/Lookups.antt =====
-- crates/relay/src/pairing_store.rs: what its lookups have found when they return a message.
use glacialcast.Prelude.{
  ℕ, ◌≡◌, refl, sym, subst, Option, none, some, some-injective, List, [], Bytes, length, Result, ok,
  err, fail_if, ltb, same_bytes_refl, >>=-eq-ok, ok-injective, arith,
}
use glacialcast.Native.Inversions.{not_refused}
use glacialcast.Pairing.Types.{
  PairingError, PairRequest, PairOffer, ViewerConfirmation, max_pairing_message_len,
}
use glacialcast.Pairing.Postcard.{PairingPostcard}
use glacialcast.Relay.Statements.{find}
use glacialcast.PairingStore.Rows.{too_large, PairRow}
use glacialcast.PairingStore.Statements.{
  in_context, of_request, encode_pair, decode_pair, decode_optional, column_of, request_of,
  request_by_id, offer_by_id, confirmation_by_id,
}

pub in_context_inv :
    {A : Type 0} (m : Result PairingError A) {a : A} → in_context m ≡ ok a → m ≡ ok a
in_context_inv (ok x) h = ground arith
in_context_inv (err e) h = absurd (cc h)

module _ {A : Type 0} (bytes_of : A → Bytes) (parse : Bytes → Option (A × Bytes)) where
  pub decode-encode_pair :
      (value : A) (bytes : Bytes)
      → parse (bytes_of value) ≡ some (value, [])
      → encode_pair bytes_of parse value ≡ ok bytes
      → decode_pair bytes_of parse bytes ≡ ok value
  unfolding encode_pair decode_pair
  decode-encode_pair value bytes back h =
      let (u, e, k) =
        >>=-eq-ok (fail_if (ltb max_pairing_message_len (length (bytes_of value))) too_large) _ h in
      subst (λ b. decode_pair bytes_of parse b ≡ ok value) (ok-injective k)
        (rw (not_refused _ too_large e, back, same_bytes_refl (bytes_of value)))

  pub decode_optional_inv :
      (o : Option Bytes) {value : A}
      → decode_optional bytes_of parse o ≡ ok (some value)
      → (bytes : Bytes) × (o ≡ some bytes) × (decode_pair bytes_of parse bytes ≡ ok value)
  decode_optional_inv none {value} h = absurd (no_value (ok-injective h))
    where
      no_value : none ≡ some value → ⊥
      no_value e = cc e
  decode_optional_inv (some bytes) {value} h =
      let (x, decoded, k) = >>=-eq-ok (decode_pair bytes_of parse bytes) _ h in
      (
        bytes,
        refl,
        subst (λ y. decode_pair bytes_of parse bytes ≡ ok y)
            (some-injective x value (ok-injective k)) decoded,
      )

pub column_inv :
    (column : PairRow → Option Bytes) (found : Option PairRow) {bytes : Bytes}
    → column_of column found ≡ some bytes
    → (row : PairRow) × (found ≡ some row) × (column row ≡ some bytes)
column_inv column none h = absurd (cc h)
column_inv column (some row) h = (row, refl, h)

pub request_inv :
    (found : Option PairRow) {bytes : Bytes}
    → request_of found ≡ some bytes
    → (row : PairRow) × (found ≡ some row) × (row.request ≡ bytes)
request_inv none h = absurd (cc h)
request_inv (some row) {bytes} h = (row, refl, some-injective row.request bytes h)

module _ (post : PairingPostcard) where
  pub request_found :
      (rows : List PairRow) (id : ℕ) (r : PairRequest)
      → request_by_id post rows id ≡ ok (some r)
      → (row : PairRow) × (find (of_request id) rows ≡ some row)
        × (decode_pair post.request_bytes post.take_request row.request ≡ ok r)
  unfolding request_by_id
  request_found rows id r h =
      let (bytes, held, decoded) =
        decode_optional_inv post.request_bytes post.take_request
          (request_of (find (of_request id) rows)) h in
      let (row, found, same) = request_inv (find (of_request id) rows) held in
      (
        row,
        found,
        subst (λ b. decode_pair post.request_bytes post.take_request b ≡ ok r) (sym same) decoded,
      )

  pub offer_found :
      (rows : List PairRow) (id : ℕ) (o : PairOffer)
      → offer_by_id post rows id ≡ ok (some o)
      → (row : PairRow) × (bytes : Bytes) × (find (of_request id) rows ≡ some row)
        × (row.offer ≡ some bytes)
        × (decode_pair post.offer_bytes post.take_offer bytes ≡ ok o)
  unfolding offer_by_id
  offer_found rows id o h =
      let (bytes, held, decoded) =
        decode_optional_inv post.offer_bytes post.take_offer
          (column_of (λ row. row.offer) (find (of_request id) rows)) h in
      let (row, found, same) = column_inv (λ row. row.offer) (find (of_request id) rows) held in
      (row, bytes, found, same, decoded)

  pub confirmation_found :
      (rows : List PairRow) (id : ℕ) (c : ViewerConfirmation)
      → confirmation_by_id post rows id ≡ ok (some c)
      → (row : PairRow) × (bytes : Bytes) × (find (of_request id) rows ≡ some row)
        × (row.confirmation ≡ some bytes)
        × (decode_pair post.confirmation_bytes post.take_confirmation bytes ≡ ok c)
  unfolding confirmation_by_id
  confirmation_found rows id c h =
      let (bytes, held, decoded) =
        decode_optional_inv post.confirmation_bytes post.take_confirmation
          (column_of (λ row. row.confirmation) (find (of_request id) rows)) h in
      let (row, found, same) =
        column_inv (λ row. row.confirmation) (find (of_request id) rows) held in
      (row, bytes, found, same, decoded)
