-- ===== src/Native/Serializer.antt =====
-- Serializers for objects, payloads, descriptors and envelopes, to stand for Postcard in the tests.
use glacialcast.Prelude.{ℕ, zero, suc, ◌≡◌, refl, ap, Bool, Option, List, [], ◌∷◌, Bytes, ℤ}
use glacialcast.Native.Types.{
  IdentityPublic, SignatureBytes, CodecId, h264_annex_b, NativeObjectKind, epoch, media, cursor,
  NativeObjectHeader, NativeObject, H264EpochPayload, StreamDescriptorBody, StreamDescriptor,
}
use glacialcast.Native.EnvelopeTypes.{KeyEnvelopeHeader, KeyEnvelope}
use glacialcast.Native.External.{External, PostcardLaws}
use glacialcast.Native.Formats.{
  Format, number, numbers, both, converted, integer, flag, optional, identity_format,
  signature_format,
}
use glacialcast.Native.Tests.{toy}

abbrev kind_of : ℕ → NativeObjectKind
kind_of zero = epoch
kind_of (suc zero) = media
kind_of (suc (suc n)) = cursor

abbrev kind_code : NativeObjectKind → ℕ
kind_code epoch = 0
kind_code media = 1
kind_code cursor = 2

kind_of-kind_code : (k : NativeObjectKind) → kind_of (kind_code k) ≡ k
kind_of-kind_code epoch = refl
kind_of-kind_code media = refl
kind_of-kind_code cursor = refl

codec_same : (c : CodecId) → h264_annex_b ≡ c
codec_same h264_annex_b = refl

pub codec_format : Format CodecId
codec_format = converted (λ (n : ℕ). h264_annex_b) (λ c. 0) codec_same number

-- A list of codecs is as long as it says.
abbrev codecs_of : ℕ → List CodecId
codecs_of zero = []
codecs_of (suc n) = h264_annex_b ∷ codecs_of n

abbrev codecs_code : List CodecId → ℕ
codecs_code [] = 0
codecs_code (c ∷ cs) = suc (codecs_code cs)

codecs_of-codecs_code : (cs : List CodecId) → codecs_of (codecs_code cs) ≡ cs
codecs_of-codecs_code [] = refl
codecs_of-codecs_code (h264_annex_b ∷ cs) = ap (◌∷◌ h264_annex_b) (codecs_of-codecs_code cs)

abbrev HeaderParts : Type 0
HeaderParts =
    ((ℕ × ℕ) × (ℕ × ℕ))
    × (((ℕ × ℕ) × (ℕ × ℕ)) × ((NativeObjectKind × Bool) × ((Option CodecId × ℕ) × (ℕ × Bytes))))

abbrev header_of : HeaderParts → NativeObjectHeader
header_of (((v, p), (s, e)), (((g, n), (t, d)), ((k, r), ((c, l), (i, b))))) = record {
  version = v;
  publisher_id = p;
  stream_id = s;
  epoch_id = e;
  key_group = g;
  sequence = n;
  timestamp = t;
  duration = d;
  kind = k;
  random_access = r;
  codec = c;
  ciphertext_len = l;
  key_id = i;
  nonce = b;
}

abbrev header_parts : NativeObjectHeader → HeaderParts
header_parts h = (
  ((h.version, h.publisher_id), (h.stream_id, h.epoch_id)),
  (
    ((h.key_group, h.sequence), (h.timestamp, h.duration)),
    ((h.kind, h.random_access), ((h.codec, h.ciphertext_len), (h.key_id, h.nonce))),
  ),
)

pub header_format : Format NativeObjectHeader
header_format =
    converted header_of header_parts (λ h. refl)
      (both (both (both number number) (both number number)) (
        both (both (both number number) (both number number)) (
          both (both (converted kind_of kind_code kind_of-kind_code number) flag)
            (both (both (optional codec_format) number) (both number numbers)))))

pub object_format : Format NativeObject
object_format =
    converted
      (λ (p : (NativeObjectHeader × ℕ) × (SignatureBytes × Bytes)). record {
        header = p.0.0;
        ciphertext_hash = p.0.1;
        signature = p.1.0;
        ciphertext = p.1.1;
      })
      (λ (o : NativeObject). ((o.header, o.ciphertext_hash), (o.signature, o.ciphertext)))
      (λ o. refl) (both (both header_format number) (both signature_format numbers))

pub epoch_format : Format H264EpochPayload
epoch_format =
    converted
      (λ (p : (ℕ × ℕ) × Bytes). record { width = p.0.0; height = p.0.1; codec_config = p.1 })
      (λ (e : H264EpochPayload). ((e.width, e.height), e.codec_config)) (λ e. refl)
      (both (both number number) numbers)

abbrev DescriptorParts : Type 0
DescriptorParts = ((ℕ × IdentityPublic) × (ℕ × Bytes)) × ((Bytes × List CodecId) × (Bool × ℤ))

abbrev descriptor_of : DescriptorParts → StreamDescriptorBody
descriptor_of (((v, p), (s, n)), ((l, c), (r, t))) = record {
  version = v;
  publisher = p;
  stream_id = s;
  name = n;
  source_label = l;
  codecs = c;
  cursor = r;
  created_at_ms = t;
}

abbrev descriptor_parts : StreamDescriptorBody → DescriptorParts
descriptor_parts b = (
  ((b.version, b.publisher), (b.stream_id, b.name)),
  ((b.source_label, b.codecs), (b.cursor, b.created_at_ms)),
)

pub descriptor_format : Format StreamDescriptor
descriptor_format =
    converted
      (λ (p : StreamDescriptorBody × SignatureBytes). record { body = p.0; signature = p.1 })
      (λ (d : StreamDescriptor). (d.body, d.signature)) (λ d. refl)
      (both
        (converted descriptor_of descriptor_parts (λ b. refl)
          (both (both (both number identity_format) (both number numbers)) (
            both (both numbers (converted codecs_of codecs_code codecs_of-codecs_code number))
              (both flag integer))))
        signature_format)

abbrev EnvelopeParts : Type 0
EnvelopeParts = ((ℕ × ℕ) × (ℕ × ℕ)) × (ℕ × (ℕ × ℕ))

abbrev envelope_of : EnvelopeParts → KeyEnvelopeHeader
envelope_of (((v, p), (r, s)), (e, (g, k))) = record {
  version = v;
  publisher_id = p;
  recipient_id = r;
  stream_id = s;
  epoch_id = e;
  key_group_id = g;
  key_id = k;
}

abbrev envelope_parts : KeyEnvelopeHeader → EnvelopeParts
envelope_parts h = (
  ((h.version, h.publisher_id), (h.recipient_id, h.stream_id)),
  (h.epoch_id, (h.key_group_id, h.key_id)),
)

pub envelope_format : Format KeyEnvelope
envelope_format =
    converted
      (λ (p : (KeyEnvelopeHeader × ℕ) × (Bytes × SignatureBytes)). record {
        header = p.0.0;
        encapsulated_key = p.0.1;
        ciphertext = p.1.0;
        publisher_signature = p.1.1;
      })
      (λ (e : KeyEnvelope). ((e.header, e.encapsulated_key), (e.ciphertext, e.publisher_signature)))
      (λ e. refl)
      (both
        (both
          (converted envelope_of envelope_parts (λ h. refl)
            (both (both (both number number) (both number number))
              (both number (both number number))))
          number)
        (both numbers signature_format))

abbrev pub written_toy : External
written_toy = record toy {
  object_bytes = object_format.write;
  take_object = object_format.read;
  epoch_bytes = epoch_format.write;
  take_epoch = epoch_format.read;
  descriptor_bytes = descriptor_format.write;
  take_descriptor = descriptor_format.read;
  envelope_bytes = envelope_format.write;
  take_envelope = envelope_format.read;
}

pub written_toy-laws : PostcardLaws written_toy
written_toy-laws = record {
  take-object = object_format.read-write;
  take-epoch = epoch_format.read-write;
  take-descriptor = descriptor_format.read-write;
  take-envelope = envelope_format.read-write;
}
