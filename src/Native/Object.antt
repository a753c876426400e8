-- ===== src/Native/Object.antt =====
-- crates/protocol/src/native.rs: the checks, the opening and the canonical bytes of a `NativeObject`.
use glacialcast.Prelude.{
  ℕ, Bool, true, false, not, ◌&&◌, Bytes, length, codes, Result, ok, err, ◌>>=◌, ◌>>◌, fail_if,
  ok_or, ltb, ◌==◌, is_empty, same_bytes, same_bool,
}
use glacialcast.Native.Types.{
  IdentityError, IdentityPublic, NativeStreamError, invalid_metadata, payload_too_large,
  ciphertext_mismatch, wrong_context, decryption, identity, NativeObjectKind, epoch, media, cursor,
  NativeObject, max_native_object_len,
}
use glacialcast.Native.External.{External}
use glacialcast.Native.Identity.{fingerprint, verify}
use glacialcast.Native.H264.{contains_h264_idr, validate_plaintext}
use glacialcast.Native.Header.{validate_header}

abbrev pub object_domain : Bytes
object_domain = codes "glacialcast-stream-object-v2"

-- `?` on an identity error.
abbrev pub from_identity {ℓ} : {A : Type ℓ} → Result IdentityError A → Result NativeStreamError A
from_identity (ok a) = ok a
from_identity (err e) = err (identity e)

-- The closure of `map_err` after a signature check.
abbrev pub signature_error : IdentityError → NativeStreamError
signature_error IdentityError.invalid_signature = NativeStreamError.invalid_signature
signature_error other = identity other

abbrev pub from_signature : Result IdentityError (Unit {0}) → Result NativeStreamError (Unit {0})
from_signature (ok u) = ok u
from_signature (err e) = err (signature_error e)

abbrev pub is_media : NativeObjectKind → Bool
is_media epoch = false
is_media media = true
is_media cursor = false

module _ (ext : External) where
  unfoldable pub validate_shape : NativeObject → Result NativeStreamError (Unit {0})
  validate_shape o = do
    validate_header o.header
    fail_if (not (length o.ciphertext == o.header.ciphertext_len))
        (invalid_metadata "ciphertext length mismatch")
    fail_if (not (ext.sha256 o.ciphertext == o.ciphertext_hash)) ciphertext_mismatch

  unfoldable pub verify_public : NativeObject → IdentityPublic → Result NativeStreamError (Unit {0})
  verify_public o publisher = do
    validate_shape o
    publisher_id ← from_identity (fingerprint ext publisher)
    fail_if (not (o.header.publisher_id == publisher_id)) wrong_context
    from_signature (
        verify ext publisher object_domain
          (ext.claim_bytes (record { header = o.header; ciphertext_hash = o.ciphertext_hash }))
          o.signature)

  unfoldable pub open_object :
      NativeObject → IdentityPublic → ℕ → ℕ → Result NativeStreamError Bytes
  open_object o publisher key expected_key_id = do
    verify_public o publisher
    fail_if (not (o.header.key_id == expected_key_id)) wrong_context
    plaintext ←
        ok_or (ext.decrypt key o.header.nonce (ext.header_bytes o.header) o.ciphertext) decryption
    validate_plaintext ext o.header.kind plaintext
    fail_if
        (is_media o.header.kind
          && not (same_bool o.header.random_access (contains_h264_idr plaintext)))
        (invalid_metadata "media random-access flag does not match H.264 access unit")
    ok plaintext

  unfoldable pub encode_object : NativeObject → IdentityPublic → Result NativeStreamError Bytes
  encode_object o publisher = do
    verify_public o publisher
    fail_if (ltb max_native_object_len (length (ext.object_bytes o))) payload_too_large
    ok (ext.object_bytes o)

  unfoldable pub decode_object : Bytes → IdentityPublic → Result NativeStreamError NativeObject
  decode_object bytes publisher = do
    fail_if (ltb max_native_object_len (length bytes)) payload_too_large
    (o, remainder) ← ok_or (ext.take_object bytes) NativeStreamError.postcard
    fail_if (not (is_empty remainder)) (invalid_metadata "trailing native object data")
    verify_public o publisher
    fail_if (not (same_bytes (ext.object_bytes o) bytes))
        (invalid_metadata "noncanonical native object")
    ok o
