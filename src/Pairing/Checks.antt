-- ===== src/Pairing/Checks.antt =====
-- crates/protocol/src/pairing.rs: the checks and helpers that the messages share.
use glacialcast.Prelude.{
  ℕ, Bool, not, ◌&&◌, ◌||◌, ◌++◌, List, Bytes, length, Option, ℤ, pos, Result, ok, err, ◌>>=◌, ◌>>◌,
  fail_if, ok_or, ltb, ◌==◌, leb_ℤ, ltb_ℤ, checked_sub_ℤ, saturating_add_ℤ, is_empty, same_bytes,
  to_be_bytes,
}
use glacialcast.Native.Types.{IdentityError, IdentityPublic, SignatureBytes}
use glacialcast.Native.External.{External}
use glacialcast.Native.Identity.{verify}
use glacialcast.Native.Descriptor.{utf8_len, trim, any_control}
use glacialcast.Pairing.Types.{
  PairingError, invalid_metadata, not_yet_valid, expired, identity, clock_skew_ms,
  max_device_label_len, max_pairing_message_len,
}
use glacialcast.Pairing.Types.PairingError.{postcard}

-- `?` on an identity error.
abbrev pub from_identity {ℓ} : {A : Type ℓ} → Result IdentityError A → Result PairingError A
from_identity (ok a) = ok a
from_identity (err e) = err (identity e)

abbrev pub map_signature : IdentityError → PairingError
map_signature IdentityError.invalid_signature = PairingError.invalid_signature
map_signature other = identity other

-- `map_err(map_signature)`.
abbrev pub from_signature : Result IdentityError (Unit {0}) → Result PairingError (Unit {0})
from_signature (ok u) = ok u
from_signature (err e) = err (map_signature e)

abbrev pub same_identity : IdentityPublic → IdentityPublic → Bool
same_identity a b =
    a.version == b.version && a.signing_key == b.signing_key && a.kem_key == b.kem_key

unfoldable pub validate_time : ℤ → ℤ → ℤ → ℤ → Result PairingError (Unit {0})
validate_time issued_at_ms expires_at_ms now_ms max_lifetime_ms = do
  lifetime ←
      ok_or (checked_sub_ℤ expires_at_ms issued_at_ms)
        (invalid_metadata "pairing time range overflows")
  fail_if
      (leb_ℤ lifetime (pos 0) || leb_ℤ max_lifetime_ms (pos 0) || ltb_ℤ max_lifetime_ms lifetime)
      (invalid_metadata "pairing lifetime exceeds policy")
  fail_if (ltb_ℤ (saturating_add_ℤ now_ms clock_skew_ms) issued_at_ms) not_yet_valid
  fail_if (leb_ℤ expires_at_ms now_ms) expired

unfoldable pub validate_device_label : List ℕ → Result PairingError (Unit {0})
unfolding utf8_len trim any_control
validate_device_label label =
    fail_if
      (is_empty label
        || ltb max_device_label_len (utf8_len label)
        || not (same_bytes (trim label) label)
        || any_control label)
      (invalid_metadata "invalid device label")

module _ (ext : External) where
  -- The value is given by its canonical bytes.
  unfoldable pub domain_hash : Bytes → Bytes → ℕ
  domain_hash domain encoded = ext.sha256 (domain ++ (to_be_bytes 8 (length encoded) ++ encoded))

  -- `verify(...).map_err(map_signature)`.
  unfoldable pub verify_signed :
      IdentityPublic → Bytes → Bytes → SignatureBytes → Result PairingError (Unit {0})
  verify_signed public domain encoded signature =
      from_signature (verify ext public domain encoded signature)

-- At each type of message, with what Postcard does at it.
module _ {A : Type 0} (bytes_of : A → Bytes) (parse : Bytes → Option (A × Bytes)) where
  unfoldable pub encode_bounded : A → Result PairingError Bytes
  encode_bounded value = do
    fail_if (ltb max_pairing_message_len (length (bytes_of value)))
        (invalid_metadata "pairing message too large")
    ok (bytes_of value)

  unfoldable pub decode_bounded : Bytes → Result PairingError A
  decode_bounded bytes = do
    fail_if (ltb max_pairing_message_len (length bytes))
        (invalid_metadata "pairing message too large")
    (value, remainder) ← ok_or (parse bytes) postcard
    fail_if (not (is_empty remainder) || not (same_bytes (bytes_of value) bytes))
        (invalid_metadata "trailing or noncanonical pairing data")
    ok value
