-- ===== src/Native/Tests.antt =====
-- Concrete seals, guards and streams, and the theorems about them at concrete inputs. The cryptography is a
-- toy that meets the laws: it neither hides nor binds anything.
use glacialcast.Prelude.{
  ℕ, ◌+◌, ◌≡◌, refl, ap, ◌∙◌, subst, true, false, none, some, [], ◌∷◌, ◌++◌, map, Bytes, length,
  length-append, take, take-length-append, some-injective, ◌↔◌, to_be_bytes, length-to_be_bytes,
  from_be_bytes, same_bytes, same_bytes_refl, arith, ok, err, Distinct, ◌-◌,
}
use glacialcast.Native.Types.{
  IdentityPublic, IdentitySecret, NewNativeObject, NativeObject, media, h264_annex_b,
  sequence_regression,
}
use glacialcast.Native.External.{External, CryptoLaws}
use glacialcast.Native.Identity.{
  fingerprint, public_of, sign, validate, signing_digest, signature_from_bytes,
}
use glacialcast.Native.H264.{
  contains_h264_idr, validate_plaintext, validate_payload, is_annex_b, max_ciphertext,
}
use glacialcast.Native.Header.{validate_header, validate_codec}
use glacialcast.Native.Object.{open_object}
use glacialcast.Native.Group.{GroupEncryptor, seal, seal_under}
use glacialcast.Native.Guard.{LiveSequenceGuard}
use glacialcast.Native.Sealing.{open-seal}
use glacialcast.Native.Nonces.{seal_all, seal_all-Distinct}
use glacialcast.Native.Keyframe.{FirstMedia, IsRandomAccess, seal_all-FirstMedia}
use glacialcast.Native.Replay.{accept_all, LiveFrom, accept_all-LiveFrom}
use glacialcast.Native.AnnexB.{HasIdr, contains_h264_idr_iff}

abbrev pub tag : Bytes
tag = to_be_bytes 16 0

abbrev pub toy : External
toy = record {
  sha256 = λ bytes. 1 + length bytes;
  is_verifying_key = λ k. true;
  is_kem_key = λ k. true;
  verifying_key_of = λ k. k + 1;
  kem_key_of = λ k. some (k + 2);
  ed25519_sign = λ secret digest. to_be_bytes 64 (secret + 1 + digest);
  ed25519_verify = λ key digest signature. same_bytes signature (to_be_bytes 64 (key + digest));
  encrypt = λ key nonce aad plaintext. some (plaintext ++ tag);
  decrypt = λ key nonce aad ciphertext. some (take (length ciphertext - 16) ciphertext);
  identity_bytes = λ i. [];
  header_bytes = λ h. [];
  claim_bytes = λ c. [];
  object_bytes = λ o. [];
  take_object = λ bytes. none;
  epoch_bytes = λ p. [];
  take_epoch = λ bytes. none;
  descriptor_body_bytes = λ b. [];
  descriptor_bytes = λ d. [];
  take_descriptor = λ bytes. none;
  envelope_header_bytes = λ h. [];
  unsigned_envelope_bytes = λ e. [];
  envelope_bytes = λ e. [];
  take_envelope = λ bytes. none;
  hpke_seal = λ random key info plaintext aad. some (key, plaintext ++ tag);
  hpke_open = λ secret key info ciphertext aad. some (take (length ciphertext - 16) ciphertext);
}

pub untagged :
    (plaintext : Bytes) → take (length (plaintext ++ tag) - 16) (plaintext ++ tag) ≡ plaintext
untagged plaintext =
    ap (λ (n : ℕ). take n (plaintext ++ tag))
      (omega (arith, length-append plaintext tag, length-to_be_bytes 16 0))
    ∙ take-length-append plaintext tag

pub toy-laws : CryptoLaws toy
toy-laws = record {
  verify-sign = λ secret digest. same_bytes_refl (to_be_bytes 64 (secret + 1 + digest));
  length-sign = λ secret digest. length-to_be_bytes 64 (secret + 1 + digest);
  decrypt-encrypt = λ key nonce aad plaintext ciphertext h.
      subst (λ c. some (take (length c - 16) c) ≡ some plaintext)
        (some-injective (plaintext ++ tag) ciphertext h) (ap some (untagged plaintext));
  length-encrypt = λ key nonce aad plaintext ciphertext h. omega (
    arith,
    ap length (some-injective (plaintext ++ tag) ciphertext h),
    length-append plaintext tag,
    length-to_be_bytes 16 0,
  );
}

abbrev pub publisher : IdentitySecret
publisher = record { signing_secret = 5; kem_secret = 6 }

abbrev pub identity : IdentityPublic
identity = record { version = 1; signing_key = 6; kem_key = 8 }

abbrev group : GroupEncryptor
group = record {
  publisher_id = 24;
  stream_id = 2;
  epoch_id = 3;
  key_group = 1;
  key_id = 9;
  nonce_prefix = 1 ∷ 2 ∷ 3 ∷ 4 ∷ [];
  last_sequence = 4;
  media_started = false;
  key = 77;
}

abbrev pub frame : ℕ → NewNativeObject
frame n = record {
  sequence = n;
  timestamp = 90;
  duration = 1;
  kind = media;
  random_access = true;
  codec = some h264_annex_b;
}

abbrev pub idr_unit : Bytes
idr_unit = 0 ∷ 0 ∷ 1 ∷ 0x65 ∷ []

abbrev delta_unit : Bytes
delta_unit = 0 ∷ 0 ∷ 1 ∷ 0x41 ∷ []

abbrev pub sealed_frame : NativeObject
sealed_frame = record {
  header = record {
    version = 2;
    publisher_id = 24;
    stream_id = 2;
    epoch_id = 3;
    key_group = 1;
    sequence = 5;
    timestamp = 90;
    duration = 1;
    kind = media;
    random_access = true;
    codec = some h264_annex_b;
    ciphertext_len = 20;
    key_id = 9;
    nonce = 1 ∷ 2 ∷ 3 ∷ 4 ∷ 0 ∷ 0 ∷ 0 ∷ 0 ∷ 0 ∷ 0 ∷ 0 ∷ 5 ∷ [];
  };
  ciphertext_hash = 21;
  signature = record { first = to_be_bytes 32 0; second = to_be_bytes 32 69 };
  ciphertext = idr_unit ++ tag;
}

abbrev after_frame : GroupEncryptor
after_frame = record group { last_sequence = 5; media_started = true }

seal-frame : seal toy group publisher (frame 5) idr_unit ≡ ok (sealed_frame, after_frame)
unfolding seal seal_under fingerprint public_of sign validate signing_digest signature_from_bytes
    validate_plaintext validate_payload is_annex_b max_ciphertext validate_header validate_codec
    contains_h264_idr to_be_bytes from_be_bytes
seal-frame = refl

seal_replayed : seal toy after_frame publisher (frame 5) idr_unit ≡ err sequence_regression
unfolding seal
seal_replayed = refl

public_of-publisher : public_of toy publisher ≡ ok identity
unfolding public_of
public_of-publisher = refl

open-seal_example : open_object toy sealed_frame identity 77 9 ≡ ok idr_unit
open-seal_example =
    open-seal toy toy-laws group publisher (frame 5) idr_unit sealed_frame after_frame identity
      seal-frame public_of-publisher

seal_all-Distinct_example : Distinct (
    map
      (λ (o : NativeObject). o.header.nonce)
      (seal_all toy group publisher
        ((frame 5, idr_unit) ∷ (frame 5, idr_unit) ∷ (frame 6, delta_unit) ∷ [])))
seal_all-Distinct_example =
    seal_all-Distinct toy group publisher
      ((frame 5, idr_unit) ∷ (frame 5, idr_unit) ∷ (frame 6, delta_unit) ∷ []) (omega arith)

seal_all-FirstMedia_example :
    FirstMedia IsRandomAccess
      (seal_all toy group publisher ((frame 5, delta_unit) ∷ (frame 6, idr_unit) ∷ []))
seal_all-FirstMedia_example =
    seal_all-FirstMedia toy group publisher ((frame 5, delta_unit) ∷ (frame 6, idr_unit) ∷ []) refl

abbrev live : LiveSequenceGuard
live = record { publisher_id = 24; stream_id = 2; last_sequence = 4 }

accept_all-LiveFrom_example : LiveFrom 24 2 4 (accept_all live (sealed_frame ∷ sealed_frame ∷ []))
accept_all-LiveFrom_example = accept_all-LiveFrom live (sealed_frame ∷ sealed_frame ∷ [])

contains_h264_idr_iff_example : (contains_h264_idr (0 ∷ idr_unit) ≡ true) ↔ HasIdr (0 ∷ idr_unit)
contains_h264_idr_iff_example = contains_h264_idr_iff (0 ∷ idr_unit)
