-- ===== src/Native/Group.antt =====
-- crates/protocol/src/native.rs: `ContentKey` and `GroupEncryptor`, which seals the objects of one
-- keyframe group.
use glacialcast.Prelude.{
  ℕ, ◌+◌, ◌^◌, Bool, false, not, ◌&&◌, ◌||◌, ◌++◌, Bytes, length, to_be_bytes, Result, ok, ◌>>=◌,
  ◌>>◌, fail_if, ok_or, try_from, leb, ◌==◌, same_bool,
}
use glacialcast.Native.Types.{
  IdentityPublic, IdentitySecret, NativeStreamError, invalid_metadata, payload_too_large,
  sequence_regression, wrong_context, decryption, NativeObjectHeader, NewNativeObject, NativeObject,
  stream_format_version, aead_tag_len,
}
use glacialcast.Native.External.{External}
use glacialcast.Native.Identity.{fingerprint, public_of, sign}
use glacialcast.Native.H264.{contains_h264_idr, validate_plaintext}
use glacialcast.Native.Header.{validate_header}
use glacialcast.Native.Object.{object_domain, from_identity, is_media}

pub record GroupEncryptor : Type 0 where
  pub publisher_id : ℕ
  pub stream_id : ℕ
  pub epoch_id : ℕ
  pub key_group : ℕ
  pub key_id : ℕ
  pub nonce_prefix : Bytes
  pub last_sequence : ℕ
  pub media_started : Bool
  pub key : ℕ

-- `ContentKey::from_bytes`.
unfoldable pub content_key : ℕ → Result NativeStreamError ℕ
content_key bytes = do fail_if (bytes == 0) (invalid_metadata "zero content key"); ok bytes

-- The final eight bytes of a nonce encode the sequence.
abbrev pub nonce_of : Bytes → ℕ → Bytes
nonce_of prefix sequence = prefix ++ to_be_bytes 8 sequence

abbrev pub header_of : GroupEncryptor → NewNativeObject → ℕ → NativeObjectHeader
header_of g object ciphertext_len = record {
  version = stream_format_version;
  publisher_id = g.publisher_id;
  stream_id = g.stream_id;
  epoch_id = g.epoch_id;
  key_group = g.key_group;
  sequence = object.sequence;
  timestamp = object.timestamp;
  duration = object.duration;
  kind = object.kind;
  random_access = object.random_access;
  codec = object.codec;
  ciphertext_len = ciphertext_len;
  key_id = g.key_id;
  nonce = nonce_of g.nonce_prefix object.sequence;
}

-- A media object says whether it holds an IDR, and the first of a group holds one.
abbrev pub keyframe_refused : GroupEncryptor → NewNativeObject → Bytes → Bool
keyframe_refused g object plaintext =
    is_media object.kind
    && (not (same_bool object.random_access (contains_h264_idr plaintext))
        || not g.media_started && not (contains_h264_idr plaintext))

abbrev pub after_seal : GroupEncryptor → NewNativeObject → GroupEncryptor
after_seal g object = record g {
  last_sequence = object.sequence;
  media_started = is_media object.kind || g.media_started;
}

module _ (ext : External) where
  unfoldable pub restore :
      IdentityPublic
      → ℕ
      → ℕ
      → ℕ
      → ℕ
      → Bytes
      → ℕ
      → Bool
      → ℕ
      → Result NativeStreamError GroupEncryptor
  restore publisher stream_id epoch_id key_group key_id nonce_prefix last_sequence media_started
        bytes =
      do
        fail_if (stream_id == 0 || epoch_id == 0 || key_group == 0 || key_id == 0)
            (invalid_metadata "nil or zero group recovery identifier")
        publisher_id ← from_identity (fingerprint ext publisher)
        key ← content_key bytes
        ok (record {
          publisher_id = publisher_id;
          stream_id = stream_id;
          epoch_id = epoch_id;
          key_group = key_group;
          key_id = key_id;
          nonce_prefix = nonce_prefix;
          last_sequence = last_sequence;
          media_started = media_started;
          key = key;
        })

  -- The random key identifier, nonce prefix and key are the last three arguments.
  unfoldable pub generate :
      IdentityPublic → ℕ → ℕ → ℕ → ℕ → ℕ → Bytes → ℕ → Result NativeStreamError GroupEncryptor
  generate publisher stream_id epoch_id key_group prior_sequence key_id nonce_prefix bytes = do
    fail_if (stream_id == 0 || epoch_id == 0 || key_group == 0)
        (invalid_metadata "nil group stream or epoch identifier")
    restore publisher stream_id epoch_id key_group key_id nonce_prefix prior_sequence false bytes

  -- The second half of `seal`, from the header on.
  unfoldable pub seal_under :
      GroupEncryptor
      → IdentitySecret
      → NativeObjectHeader
      → Bytes
      → Result NativeStreamError NativeObject
  seal_under g publisher header plaintext = do
    validate_header header
    ciphertext ←
        ok_or (ext.encrypt g.key header.nonce (ext.header_bytes header) plaintext) decryption
    signature ← from_identity (
        sign ext publisher object_domain
          (ext.claim_bytes (record { header = header; ciphertext_hash = ext.sha256 ciphertext })))
    ok (record {
      header = header;
      ciphertext_hash = ext.sha256 ciphertext;
      signature = signature;
      ciphertext = ciphertext;
    })

  -- The length of the ciphertext is a `u32`; the sum of lengths is a `usize`.
  unfoldable pub seal :
      GroupEncryptor
      → IdentitySecret
      → NewNativeObject
      → Bytes
      → Result NativeStreamError (NativeObject × GroupEncryptor)
  seal g publisher object plaintext = do
    fail_if (leb object.sequence g.last_sequence) sequence_regression
    public ← from_identity (public_of ext publisher)
    publisher_id ← from_identity (fingerprint ext public)
    fail_if (not (publisher_id == g.publisher_id)) wrong_context
    validate_plaintext ext object.kind plaintext
    fail_if (keyframe_refused g object plaintext)
        (invalid_metadata "keyframe group does not begin with a declared H.264 IDR")
    ciphertext_len ← try_from (2 ^ 32) (length plaintext + aead_tag_len) payload_too_large
    sealed ← seal_under g publisher (header_of g object ciphertext_len) plaintext
    ok (sealed, after_seal g object)
