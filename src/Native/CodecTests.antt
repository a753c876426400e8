-- ===== src/Native/CodecTests.antt =====
-- The canonical bytes and the key envelopes at concrete inputs.
use glacialcast.Prelude.{
  ℕ, ◌≡◌, refl, ap, subst, some, some-injective, ◌++◌, ◌↔◌, Bytes, length, take, to_be_bytes, ok,
  codes, true, pos, ◌-◌,
}
use glacialcast.Native.Types.{IdentityPublic, IdentitySecret, StreamDescriptor}
use glacialcast.Native.EnvelopeTypes.{KeyEnvelope}
use glacialcast.Native.External.{HpkeLaws}
use glacialcast.Native.Identity.{
  fingerprint, public_of, sign, validate, signing_digest, signature_from_bytes,
}
use glacialcast.Native.Object.{encode_object, decode_object}
use glacialcast.Native.Descriptor.{new_body, encode_descriptor, decode_descriptor}
use glacialcast.Native.Envelope.{
  encode_envelope, decode_envelope, seal_envelope, open_envelope, validate_envelope_header,
  kem_public_key,
}
use glacialcast.Native.Canonical.{encode_descriptor_iff, encode_object_iff, encode_envelope_iff}
use glacialcast.Native.Enveloping.{open-seal_envelope}
use glacialcast.Native.Tests.{toy, toy-laws, tag, untagged, publisher, identity, sealed_frame}
use glacialcast.Native.Serializer.{
  written_toy, written_toy-laws, object_format, descriptor_format, envelope_format,
}

toy-HpkeLaws : HpkeLaws toy
toy-HpkeLaws = record {
  open-seal = λ random secret public encapsulated info plaintext aad ciphertext key h.
      subst (λ (c : Bytes). some (take (length c - 16) c) ≡ some plaintext)
        (ap (λ (p : ℕ × Bytes). p.1)
          (some-injective (public, plaintext ++ tag) (encapsulated, ciphertext) h))
        (ap some (untagged plaintext));
}

abbrev viewer : IdentitySecret
viewer = record { signing_secret = 15; kem_secret = 16 }

abbrev viewer_public : IdentityPublic
viewer_public = record { version = 1; signing_key = 16; kem_key = 18 }

abbrev content : Bytes
content = to_be_bytes 32 77

abbrev for_viewer : KeyEnvelope
for_viewer = record {
  header = record {
    version = 1;
    publisher_id = 24;
    recipient_id = 24;
    stream_id = 2;
    epoch_id = 3;
    key_group_id = 1;
    key_id = 9;
  };
  encapsulated_key = 18;
  ciphertext = content ++ tag;
  publisher_signature = record { first = to_be_bytes 32 0; second = to_be_bytes 32 68 };
}

seal_envelope-viewer : seal_envelope toy 0 publisher viewer_public 2 3 1 9 content ≡ ok for_viewer
unfolding seal_envelope public_of fingerprint validate validate_envelope_header kem_public_key sign
    signing_digest signature_from_bytes to_be_bytes
seal_envelope-viewer = refl

public_of_both : (public_of toy publisher ≡ ok identity) × (public_of toy viewer ≡ ok viewer_public)
unfolding public_of
public_of_both = (refl, refl)

content_size : length content ≡ 32
unfolding to_be_bytes
content_size = refl

open-seal_envelope_example : open_envelope toy for_viewer viewer identity ≡ ok content
open-seal_envelope_example =
    open-seal_envelope toy toy-laws toy-HpkeLaws 0 publisher viewer identity viewer_public 2 3 1 9
      content for_viewer public_of_both.0 public_of_both.1 content_size seal_envelope-viewer

encode_object_iff_example :
    (encode_object written_toy sealed_frame identity ≡ ok (object_format.write sealed_frame))
    ↔ (decode_object written_toy (object_format.write sealed_frame) identity ≡ ok sealed_frame)
encode_object_iff_example =
    encode_object_iff written_toy written_toy-laws sealed_frame identity
      (object_format.write sealed_frame)

encode_envelope_iff_example :
    (encode_envelope written_toy for_viewer identity ≡ ok (envelope_format.write for_viewer))
    ↔ (decode_envelope written_toy (envelope_format.write for_viewer) identity ≡ ok for_viewer)
encode_envelope_iff_example =
    encode_envelope_iff written_toy written_toy-laws for_viewer identity
      (envelope_format.write for_viewer)

abbrev screen : StreamDescriptor
screen = record {
  body = new_body identity 2 (codes "screen") (codes "DP-1") true (pos 1);
  signature = record { first = to_be_bytes 32 0; second = to_be_bytes 32 73 };
}

encode_descriptor_iff_example :
    (encode_descriptor written_toy screen ≡ ok (descriptor_format.write screen))
    ↔ (decode_descriptor written_toy (descriptor_format.write screen) ≡ ok screen)
encode_descriptor_iff_example =
    encode_descriptor_iff written_toy written_toy-laws screen (descriptor_format.write screen)
