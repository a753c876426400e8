-- ===== src/Pairing/Canonical.antt =====
-- crates/protocol/src/pairing.rs: the encoder of a request against its decoder.
use glacialcast.Prelude.{
  ◌≡◌, sym, subst, false, not, ◌||◌, [], Bytes, Option, some, ◌↔◌, ok, fail_if, ok_or, ltb, length,
  same_bytes, same_bytes_refl, is_empty, >>=-eq-ok, ok-injective,
}
use glacialcast.Native.External.{External}
use glacialcast.Native.Canonical.{same_of_not, parse_whole}
use glacialcast.Native.Inversions.{not_refused}
use glacialcast.Pairing.Types.{PairRequest, invalid_metadata, postcard, max_pairing_message_len}
use glacialcast.Pairing.Postcard.{PairingPostcard, PairingPostcardLaws}
use glacialcast.Pairing.Checks.{encode_bounded, decode_bounded}
use glacialcast.Pairing.Request.{validate_request_metadata, encode_request, decode_request}
use glacialcast.Credential.Searching.{right_of}

module _ {A : Type 0} (bytes_of : A → Bytes) (parse : Bytes → Option (A × Bytes)) where
  decode-encode_bounded :
      (value : A) (bytes : Bytes)
      → parse (bytes_of value) ≡ some (value, [])
      → encode_bounded bytes_of parse value ≡ ok bytes
      → decode_bounded bytes_of parse bytes ≡ ok value
  unfolding encode_bounded decode_bounded
  decode-encode_bounded value bytes back h =
      let (u, e, k) =
        >>=-eq-ok
          (fail_if (ltb max_pairing_message_len (length (bytes_of value)))
            (invalid_metadata "pairing message too large"))
          _ h in
      subst (λ b. decode_bounded bytes_of parse b ≡ ok value) (ok-injective k)
        (rw (
          not_refused _ (invalid_metadata "pairing message too large") e,
          back,
          same_bytes_refl (bytes_of value),
        ))

  encode-decode_bounded :
      (value : A) (bytes : Bytes)
      → decode_bounded bytes_of parse bytes ≡ ok value
      → encode_bounded bytes_of parse value ≡ ok bytes
  unfolding encode_bounded decode_bounded
  encode-decode_bounded value bytes h =
      let large = invalid_metadata "pairing message too large" in
      let noncanonical = invalid_metadata "trailing or noncanonical pairing data" in
      let (u1, s, k1) =
        >>=-eq-ok (fail_if (ltb max_pairing_message_len (length bytes)) large) _ h in
      let ((x, rest), p, k2) = >>=-eq-ok (ok_or (parse bytes) postcard) _ k1 in
      let (u2, e, k3) =
        >>=-eq-ok
          (fail_if (not (is_empty rest) || not (same_bytes (bytes_of x) bytes)) noncanonical) _
          k2 in
      let written : bytes_of x ≡ bytes =
        same_of_not (bytes_of x) bytes (right_of _ _ (not_refused _ noncanonical e)) in
      subst (λ y. encode_bounded bytes_of parse y ≡ ok bytes) (ok-injective k3)
        (rw (
          subst (λ b. ltb max_pairing_message_len (length b) ≡ false) (sym written)
              (not_refused _ large s),
          written,
        ))

module _ (ext : External) (post : PairingPostcard) (laws : PairingPostcardLaws post) where
  -- Where Postcard reads back what it wrote, a pairing request encodes to bytes exactly when
  -- those bytes decode to it.
  pub encode_request_iff :
      (r : PairRequest) (bytes : Bytes)
      → (encode_request ext post r ≡ ok bytes) ↔ (decode_request ext post bytes ≡ ok r)
  unfolding encode_request decode_request
  encode_request_iff r bytes = (
    λ h.
        let (u, valid, k) = >>=-eq-ok (validate_request_metadata ext r.body) _ h in
        rw (
          decode-encode_bounded post.request_bytes post.take_request r bytes
              (parse_whole post.take_request (post.request_bytes r) r (laws.take-request r)) k,
          valid,
        ),
    λ h.
        let (x, decoded, k1) =
          >>=-eq-ok (decode_bounded post.request_bytes post.take_request bytes) _ h in
        let (u, valid, k2) = >>=-eq-ok (validate_request_metadata ext x.body) _ k1 in
        subst (λ y. encode_request ext post y ≡ ok bytes) (ok-injective k2)
          (rw valid (encode-decode_bounded post.request_bytes post.take_request x bytes decoded)),
  )
