-- ===== src/Native/Types.antt =====
-- crates/protocol/src/native.rs and identity.rs: the data of native objects. An identifier or a key of
-- fixed size is the number that its bytes stand for, so that the nil one is 0.
use glacialcast.Prelude.{ℕ, ◌+◌, ◌*◌, Bool, Option, List, Bytes, String, ℤ}

abbrev pub stream_format_version : ℕ
stream_format_version = 2

abbrev pub max_media_ciphertext_len : ℕ
max_media_ciphertext_len = 16 * 1024 * 1024 + 16

abbrev pub max_cursor_ciphertext_len : ℕ
max_cursor_ciphertext_len = 4 * 1024 * 1024 + 16

abbrev pub max_epoch_ciphertext_len : ℕ
max_epoch_ciphertext_len = 1024 * 1024 + 16

abbrev pub max_native_object_len : ℕ
max_native_object_len = max_media_ciphertext_len + 64 * 1024

abbrev pub content_nonce_len : ℕ
content_nonce_len = 12

abbrev pub max_codec_config_len : ℕ
max_codec_config_len = 64 * 1024

abbrev pub aead_tag_len : ℕ
aead_tag_len = 16

pub data IdentityError : Type 0 where
  unsupported_version : ℕ → IdentityError
  invalid_key invalid_signature postcard : IdentityError

pub data NativeStreamError : Type 0 where
  unsupported_version : ℕ → NativeStreamError
  invalid_metadata : String → NativeStreamError
  payload_too_large sequence_regression invalid_signature : NativeStreamError
  ciphertext_mismatch decryption wrong_context : NativeStreamError
  identity : IdentityError → NativeStreamError
  postcard : NativeStreamError

-- Two halves of 32 bytes.
pub record SignatureBytes : Type 0 where
  pub first : Bytes
  pub second : Bytes

pub record IdentityPublic : Type 0 where
  pub version : ℕ
  pub signing_key : ℕ
  pub kem_key : ℕ

pub record IdentitySecret : Type 0 where
  pub signing_secret : ℕ
  pub kem_secret : ℕ

pub data CodecId : Type 0 where
  h264_annex_b : CodecId

pub data NativeObjectKind : Type 0 where
  epoch media cursor : NativeObjectKind

pub record NativeObjectHeader : Type 0 where
  pub version : ℕ
  pub publisher_id : ℕ
  pub stream_id : ℕ
  pub epoch_id : ℕ
  pub key_group : ℕ
  pub sequence : ℕ
  pub timestamp : ℕ
  pub duration : ℕ
  pub kind : NativeObjectKind
  pub random_access : Bool
  pub codec : Option CodecId
  pub ciphertext_len : ℕ
  pub key_id : ℕ
  pub nonce : Bytes

pub record NewNativeObject : Type 0 where
  pub sequence : ℕ
  pub timestamp : ℕ
  pub duration : ℕ
  pub kind : NativeObjectKind
  pub random_access : Bool
  pub codec : Option CodecId

pub record NativeObjectClaim : Type 0 where
  pub header : NativeObjectHeader
  pub ciphertext_hash : ℕ

pub record NativeObject : Type 0 where
  pub header : NativeObjectHeader
  pub ciphertext_hash : ℕ
  pub signature : SignatureBytes
  pub ciphertext : Bytes

pub record H264EpochPayload : Type 0 where
  pub width : ℕ
  pub height : ℕ
  pub codec_config : Bytes

-- Texts are given by their code points.
pub record StreamDescriptorBody : Type 0 where
  pub version : ℕ
  pub publisher : IdentityPublic
  pub stream_id : ℕ
  pub name : List ℕ
  pub source_label : List ℕ
  pub codecs : List CodecId
  pub cursor : Bool
  pub created_at_ms : ℤ

pub record StreamDescriptor : Type 0 where
  pub body : StreamDescriptorBody
  pub signature : SignatureBytes
