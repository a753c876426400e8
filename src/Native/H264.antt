-- ===== src/Native/H264.antt =====
-- crates/protocol/src/native.rs: the Annex-B byte streams in plaintexts, and the epoch payload.
use glacialcast.Prelude.{
  ℕ, ◌+◌, Bool, true, false, not, ◌||◌, Option, none, some, [], ◌∷◌, Bytes, length, drop, Result,
  ok, ◌>>=◌, ◌>>◌, fail_if, ok_or, ltb, leb, ◌==◌, if◌then◌else◌, bit_and, is_some_and, is_empty,
  starts_with, same_bytes,
}
use glacialcast.Native.Types.{
  NativeStreamError, invalid_metadata, payload_too_large, NativeObjectKind, epoch, media, cursor,
  H264EpochPayload, max_codec_config_len, max_epoch_ciphertext_len, max_media_ciphertext_len,
  max_cursor_ciphertext_len, aead_tag_len,
}
use glacialcast.Native.External.{External}

abbrev pub long_start : Bytes
long_start = 0 ∷ 0 ∷ 0 ∷ 1 ∷ []

abbrev pub short_start : Bytes
short_start = 0 ∷ 0 ∷ 1 ∷ []

unfoldable pub is_annex_b : Bytes → Bool
is_annex_b bytes = starts_with short_start bytes || starts_with long_start bytes

-- The bytes from `nal_offset` on, given those from `offset` on.
abbrev pub nal_after : Bytes → Option Bytes
nal_after bytes =
    if starts_with long_start bytes
    then some (drop 4 bytes)
    else if starts_with short_start bytes
    then some (drop 3 bytes)
    else none

-- `nal_offset < bytes.len() && bytes[nal_offset] & 0x1f == 5`.
abbrev pub is_idr : Bytes → Bool
is_idr [] = false
is_idr (b ∷ rest) = bit_and b 0x1f == 5

-- One round of the loop at the position where the bytes begin.
abbrev pub idr_here : Bytes → Bool
idr_here bytes = is_some_and (nal_after bytes) is_idr

-- The loop over `offset`; the list is what lies at `offset` and behind it.
unfoldable pub contains_h264_idr : Bytes → Bool
contains_h264_idr [] = false
contains_h264_idr (b ∷ rest) =
    if leb 4 (length (b ∷ rest))
    then (if idr_here (b ∷ rest) then true else contains_h264_idr rest)
    else false

unfoldable pub max_ciphertext : NativeObjectKind → ℕ
max_ciphertext epoch = max_epoch_ciphertext_len
max_ciphertext media = max_media_ciphertext_len
max_ciphertext cursor = max_cursor_ciphertext_len

unfoldable pub validate_epoch : H264EpochPayload → Result NativeStreamError (Unit {0})
unfolding is_annex_b
validate_epoch payload =
    fail_if
      (payload.width == 0
        || payload.height == 0
        || ltb 16_384 payload.width
        || ltb 16_384 payload.height
        || ltb max_codec_config_len (length payload.codec_config)
        || not (is_annex_b payload.codec_config))
      (invalid_metadata "invalid H.264 epoch configuration")

module _ (ext : External) where
  unfoldable pub encode_epoch : H264EpochPayload → Result NativeStreamError Bytes
  encode_epoch payload = do validate_epoch payload; ok (ext.epoch_bytes payload)

  unfoldable pub decode_epoch : Bytes → Result NativeStreamError H264EpochPayload
  decode_epoch bytes = do
    (payload, remainder) ← ok_or (ext.take_epoch bytes) NativeStreamError.postcard
    fail_if (not (is_empty remainder)) (invalid_metadata "trailing epoch payload data")
    validate_epoch payload
    fail_if (not (same_bytes (ext.epoch_bytes payload) bytes))
        (invalid_metadata "noncanonical epoch payload")
    ok payload

  -- The match on the kind.
  unfoldable pub validate_payload : NativeObjectKind → Bytes → Result NativeStreamError (Unit {0})
  validate_payload epoch plaintext = do decode_epoch plaintext; ok tt
  validate_payload media plaintext =
      fail_if (not (is_annex_b plaintext)) (invalid_metadata "media payload is not H.264 Annex-B")
  validate_payload cursor plaintext = ok tt

  -- The saturating sum saturates far above every bound.
  unfoldable pub validate_plaintext : NativeObjectKind → Bytes → Result NativeStreamError (Unit {0})
  validate_plaintext kind plaintext = do
    fail_if (is_empty plaintext || ltb (max_ciphertext kind) (length plaintext + aead_tag_len))
        payload_too_large
    validate_payload kind plaintext
