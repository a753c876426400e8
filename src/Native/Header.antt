-- ===== src/Native/Header.antt =====
-- crates/protocol/src/native.rs: `validate_header`.
use glacialcast.Prelude.{
  ℕ, Bool, true, false, not, ◌||◌, Option, none, some, drop, from_be_bytes, Result, ◌>>◌, fail_if,
  ltb, ◌==◌,
}
use glacialcast.Native.Types.{
  NativeStreamError, invalid_metadata, payload_too_large, NativeObjectKind, epoch, media, cursor,
  CodecId, h264_annex_b, NativeObjectHeader, stream_format_version, aead_tag_len,
}
use glacialcast.Native.H264.{max_ciphertext}

abbrev pub is_h264 : Option CodecId → Bool
is_h264 none = false
is_h264 (some h264_annex_b) = true

abbrev pub has_codec : Option CodecId → Bool
has_codec none = false
has_codec (some c) = true

abbrev pub nonce_sequence : NativeObjectHeader → ℕ
nonce_sequence header = from_be_bytes (drop 4 header.nonce)

-- The match on the kind, which wants the codec and the random-access flag that belong to it.
unfoldable pub validate_codec :
    NativeObjectKind → Bool → Option CodecId → Result NativeStreamError (Unit {0})
validate_codec epoch random_access codec =
    fail_if (not random_access || not (is_h264 codec))
      (invalid_metadata "invalid epoch codec or random-access flag")
validate_codec media random_access codec =
    fail_if (not (is_h264 codec)) (invalid_metadata "invalid media codec")
validate_codec cursor random_access codec =
    fail_if (random_access || has_codec codec)
      (invalid_metadata "cursor object declares video metadata")

unfoldable pub validate_header : NativeObjectHeader → Result NativeStreamError (Unit {0})
validate_header header = do
  fail_if (not (header.version == stream_format_version))
      (NativeStreamError.unsupported_version header.version)
  fail_if
      (header.publisher_id == 0
        || header.stream_id == 0
        || header.epoch_id == 0
        || header.key_group == 0
        || header.sequence == 0
        || header.duration == 0
        || header.key_id == 0)
      (invalid_metadata "zero native object identifier or duration")
  fail_if (not (nonce_sequence header == header.sequence))
      (invalid_metadata "nonce does not bind sequence")
  fail_if
      (ltb header.ciphertext_len aead_tag_len
        || ltb (max_ciphertext header.kind) header.ciphertext_len)
      payload_too_large
  validate_codec header.kind header.random_access header.codec
