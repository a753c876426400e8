-- ===== src/Native/Envelope.antt =====
-- crates/protocol/src/envelope.rs: sealing, checking and opening of a `KeyEnvelope`.
use glacialcast.Prelude.{
  ℕ, not, ◌||◌, ◌++◌, Bytes, length, codes, Result, ok, err, ◌>>=◌, ◌>>◌, fail_if, ok_or, ltb, ◌==◌,
  is_empty, same_bytes,
}
use glacialcast.Native.Types.{IdentityError, IdentityPublic, IdentitySecret}
use glacialcast.Native.EnvelopeTypes.{
  EnvelopeError, unsupported_version, invalid_metadata, wrong_recipient, wrong_publisher, hpke,
  identity, KeyEnvelopeHeader, KeyEnvelope, UnsignedEnvelope, key_envelope_version, content_key_len,
  max_key_envelope_len, hpke_ciphertext_len,
}
use glacialcast.Native.External.{External}
use glacialcast.Native.Identity.{fingerprint, public_of, sign, validate, verify}

abbrev pub envelope_domain : Bytes
envelope_domain = codes "glacialcast-key-envelope-v1"

abbrev pub hpke_info_prefix : Bytes
hpke_info_prefix = codes "glacialcast-hpke-content-key-v1"

-- `?` on an identity error.
abbrev pub identity_in {ℓ} : {A : Type ℓ} → Result IdentityError A → Result EnvelopeError A
identity_in (ok a) = ok a
identity_in (err e) = err (identity e)

unfoldable pub validate_envelope_header : KeyEnvelopeHeader → Result EnvelopeError (Unit {0})
validate_envelope_header h = do
  fail_if (not (h.version == key_envelope_version)) (unsupported_version h.version)
  fail_if (h.stream_id == 0 || h.epoch_id == 0 || h.key_group_id == 0)
      (invalid_metadata "invalid stream key-group identity")
  fail_if (h.publisher_id == 0 || h.recipient_id == 0 || h.key_id == 0)
      (invalid_metadata "zero identity or key identifier")

unfoldable pub validate_envelope_shape : KeyEnvelope → Result EnvelopeError (Unit {0})
validate_envelope_shape e = do
  validate_envelope_header e.header
  fail_if (not (length e.ciphertext == hpke_ciphertext_len))
      (invalid_metadata "unexpected HPKE ciphertext length")

abbrev pub unsigned_of : KeyEnvelope → UnsignedEnvelope
unsigned_of e = record {
  header = e.header;
  encapsulated_key = e.encapsulated_key;
  ciphertext = e.ciphertext;
}

abbrev pub new_header : ℕ → ℕ → ℕ → ℕ → ℕ → ℕ → KeyEnvelopeHeader
new_header publisher_id recipient_id stream_id epoch_id key_group_id key_id = record {
  version = key_envelope_version;
  publisher_id = publisher_id;
  recipient_id = recipient_id;
  stream_id = stream_id;
  epoch_id = epoch_id;
  key_group_id = key_group_id;
  key_id = key_id;
}

module _ (ext : External) where
  unfoldable pub hpke_context : KeyEnvelopeHeader → Bytes × Bytes
  hpke_context h = (hpke_info_prefix ++ ext.envelope_header_bytes h, ext.envelope_header_bytes h)

  -- `recipient.kem_public_key()`.
  unfoldable pub kem_public_key : IdentityPublic → Result IdentityError ℕ
  kem_public_key public = do
    validate ext public
    fail_if (not (ext.is_kem_key public.kem_key)) IdentityError.invalid_key
    ok public.kem_key

  -- The randomness of HPKE is the first argument.
  unfoldable pub seal_envelope :
      ℕ → IdentitySecret → IdentityPublic → ℕ → ℕ → ℕ → ℕ → Bytes → Result EnvelopeError KeyEnvelope
  unfolding hpke_context
  seal_envelope random publisher recipient stream_id epoch_id key_group_id key_id content_key = do
    publisher_public ← identity_in (public_of ext publisher)
    identity_in (validate ext recipient)
    publisher_id ← identity_in (fingerprint ext publisher_public)
    recipient_id ← identity_in (fingerprint ext recipient)
    let header = new_header publisher_id recipient_id stream_id epoch_id key_group_id key_id
    validate_envelope_header header
    let context = hpke_context header
    recipient_key ← identity_in (kem_public_key recipient)
    (encapsulated_key, ciphertext) ←
        ok_or (ext.hpke_seal random recipient_key context.0 content_key context.1) hpke
    fail_if (not (length ciphertext == hpke_ciphertext_len))
        (invalid_metadata "unexpected HPKE ciphertext length")
    signature ← identity_in (
        sign ext publisher envelope_domain (
          ext.unsigned_envelope_bytes (record {
            header = header;
            encapsulated_key = encapsulated_key;
            ciphertext = ciphertext;
          })))
    ok (record {
      header = header;
      encapsulated_key = encapsulated_key;
      ciphertext = ciphertext;
      publisher_signature = signature;
    })

  unfoldable pub verify_envelope : KeyEnvelope → IdentityPublic → Result EnvelopeError (Unit {0})
  verify_envelope e publisher = do
    validate_envelope_shape e
    identity_in (validate ext publisher)
    publisher_id ← identity_in (fingerprint ext publisher)
    fail_if (not (e.header.publisher_id == publisher_id)) wrong_publisher
    identity_in (
        verify ext publisher envelope_domain (ext.unsigned_envelope_bytes (unsigned_of e))
          e.publisher_signature)

  -- `kem_private_key` and `sk_to_pk` fail on the same keys; `EncappedKey::from_bytes` is part of
  -- `hpke_open`, and the two fail alike.
  unfoldable pub open_envelope :
      KeyEnvelope → IdentitySecret → IdentityPublic → Result EnvelopeError Bytes
  unfolding hpke_context
  open_envelope e recipient publisher = do
    verify_envelope e publisher
    recipient_public ← identity_in (public_of ext recipient)
    recipient_id ← identity_in (fingerprint ext recipient_public)
    fail_if (not (e.header.recipient_id == recipient_id)) wrong_recipient
    let context = hpke_context e.header
    plaintext ←
        ok_or
          (ext.hpke_open recipient.kem_secret e.encapsulated_key context.0 e.ciphertext context.1)
          hpke
    fail_if (not (length plaintext == content_key_len))
        (invalid_metadata "unexpected content key length")
    ok plaintext

  unfoldable pub encode_envelope : KeyEnvelope → IdentityPublic → Result EnvelopeError Bytes
  encode_envelope e publisher = do
    verify_envelope e publisher
    fail_if (ltb max_key_envelope_len (length (ext.envelope_bytes e)))
        (invalid_metadata "key envelope too large")
    ok (ext.envelope_bytes e)

  unfoldable pub decode_envelope : Bytes → IdentityPublic → Result EnvelopeError KeyEnvelope
  decode_envelope bytes publisher = do
    fail_if (ltb max_key_envelope_len (length bytes)) (invalid_metadata "key envelope too large")
    (e, remainder) ← ok_or (ext.take_envelope bytes) (identity IdentityError.postcard)
    fail_if (not (is_empty remainder)) (invalid_metadata "trailing key envelope data")
    verify_envelope e publisher
    fail_if (not (same_bytes (ext.envelope_bytes e) bytes))
        (invalid_metadata "noncanonical key envelope")
    ok e
