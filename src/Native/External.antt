-- ===== src/Native/External.antt =====
-- The code that crates/protocol calls and does not contain: the SHA-256, Ed25519, X25519 and
-- ChaCha20-Poly1305 libraries and the Postcard serializer, as functions that the model takes as an
-- argument, and what the protocol relies on of them.
use glacialcast.Prelude.{ℕ, ◌+◌, ◌≡◌, Bool, true, Option, some, ◌++◌, Bytes, length}
use glacialcast.Native.Types.{
  IdentityPublic, NativeObjectHeader, NativeObjectClaim, NativeObject, H264EpochPayload,
  StreamDescriptorBody, StreamDescriptor, aead_tag_len,
}
use glacialcast.Native.EnvelopeTypes.{KeyEnvelopeHeader, KeyEnvelope, UnsignedEnvelope}

pub record External : Type 0 where
  pub sha256 : Bytes → ℕ
  -- `VerifyingKey::from_bytes` and the X25519 `PublicKey::from_bytes` accept the key.
  pub is_verifying_key : ℕ → Bool
  pub is_kem_key : ℕ → Bool
  -- The public keys of the private ones; `none` for a malformed X25519 key.
  pub verifying_key_of : ℕ → ℕ
  pub kem_key_of : ℕ → Option ℕ
  -- 64 bytes, over a 32-byte digest.
  pub ed25519_sign : ℕ → ℕ → Bytes
  pub ed25519_verify : ℕ → ℕ → Bytes → Bool
  -- By key, nonce and associated data.
  pub encrypt : ℕ → Bytes → Bytes → Bytes → Option Bytes
  pub decrypt : ℕ → Bytes → Bytes → Bytes → Option Bytes
  -- Postcard's `to_stdvec`, and its `take_from_bytes` with what it leaves.
  pub identity_bytes : IdentityPublic → Bytes
  pub header_bytes : NativeObjectHeader → Bytes
  pub claim_bytes : NativeObjectClaim → Bytes
  pub object_bytes : NativeObject → Bytes
  pub take_object : Bytes → Option (NativeObject × Bytes)
  pub epoch_bytes : H264EpochPayload → Bytes
  pub take_epoch : Bytes → Option (H264EpochPayload × Bytes)
  pub descriptor_body_bytes : StreamDescriptorBody → Bytes
  pub descriptor_bytes : StreamDescriptor → Bytes
  pub take_descriptor : Bytes → Option (StreamDescriptor × Bytes)
  pub envelope_header_bytes : KeyEnvelopeHeader → Bytes
  pub unsigned_envelope_bytes : UnsignedEnvelope → Bytes
  pub envelope_bytes : KeyEnvelope → Bytes
  pub take_envelope : Bytes → Option (KeyEnvelope × Bytes)
  -- `single_shot_seal` by its randomness, the recipient's key, the info, the plaintext and the
  -- associated data, with the encapsulated key, and `single_shot_open` by the private key, the
  -- encapsulated key, the info, the ciphertext and the associated data.
  pub hpke_seal : ℕ → ℕ → Bytes → Bytes → Bytes → Option (ℕ × Bytes)
  pub hpke_open : ℕ → ℕ → Bytes → Bytes → Bytes → Option Bytes

-- Signatures verify under the signer's key, and decryption undoes encryption.
pub record CryptoLaws (ext : External) : Type 0 where
  pub verify-sign :
      (secret digest : ℕ)
      → ext.ed25519_verify (ext.verifying_key_of secret) digest (ext.ed25519_sign secret digest)
        ≡ true
  pub length-sign : (secret digest : ℕ) → length (ext.ed25519_sign secret digest) ≡ 64
  pub decrypt-encrypt :
      (key : ℕ) (nonce aad plaintext ciphertext : Bytes)
      → ext.encrypt key nonce aad plaintext ≡ some ciphertext
      → ext.decrypt key nonce aad ciphertext ≡ some plaintext
  pub length-encrypt :
      (key : ℕ) (nonce aad plaintext ciphertext : Bytes)
      → ext.encrypt key nonce aad plaintext ≡ some ciphertext
      → length ciphertext ≡ length plaintext + aead_tag_len

-- Opening an HPKE message with the private key of its recipient gives what was sealed.
pub record HpkeLaws (ext : External) : Type 0 where
  pub open-seal :
      (random secret public encapsulated : ℕ) (info plaintext aad ciphertext : Bytes)
      → ext.kem_key_of secret ≡ some public
      → ext.hpke_seal random public info plaintext aad ≡ some (encapsulated, ciphertext)
      → ext.hpke_open secret encapsulated info ciphertext aad ≡ some plaintext

-- Postcard reads back what it wrote and leaves the rest.
pub record PostcardLaws (ext : External) : Type 0 where
  pub take-object :
      (o : NativeObject) (rest : Bytes)
      → ext.take_object (ext.object_bytes o ++ rest) ≡ some (o, rest)
  pub take-epoch :
      (p : H264EpochPayload) (rest : Bytes)
      → ext.take_epoch (ext.epoch_bytes p ++ rest) ≡ some (p, rest)
  pub take-descriptor :
      (d : StreamDescriptor) (rest : Bytes)
      → ext.take_descriptor (ext.descriptor_bytes d ++ rest) ≡ some (d, rest)
  pub take-envelope :
      (e : KeyEnvelope) (rest : Bytes)
      → ext.take_envelope (ext.envelope_bytes e ++ rest) ≡ some (e, rest)
