-- ===== src/Native/EnvelopeTypes.antt =====
-- crates/protocol/src/envelope.rs: the data of key envelopes.
use glacialcast.Prelude.{ℕ, ◌+◌, Bytes, String}
use glacialcast.Native.Types.{IdentityError, SignatureBytes}

abbrev pub key_envelope_version : ℕ
key_envelope_version = 1

abbrev pub content_key_len : ℕ
content_key_len = 32

abbrev pub max_key_envelope_len : ℕ
max_key_envelope_len = 1024

abbrev pub hpke_ciphertext_len : ℕ
hpke_ciphertext_len = content_key_len + 16

pub data EnvelopeError : Type 0 where
  unsupported_version : ℕ → EnvelopeError
  invalid_metadata : String → EnvelopeError
  wrong_recipient wrong_publisher hpke : EnvelopeError
  identity : IdentityError → EnvelopeError

pub record KeyEnvelopeHeader : Type 0 where
  pub version : ℕ
  pub publisher_id : ℕ
  pub recipient_id : ℕ
  pub stream_id : ℕ
  pub epoch_id : ℕ
  pub key_group_id : ℕ
  pub key_id : ℕ

pub record KeyEnvelope : Type 0 where
  pub header : KeyEnvelopeHeader
  pub encapsulated_key : ℕ
  pub ciphertext : Bytes
  pub publisher_signature : SignatureBytes

pub record UnsignedEnvelope : Type 0 where
  pub header : KeyEnvelopeHeader
  pub encapsulated_key : ℕ
  pub ciphertext : Bytes
