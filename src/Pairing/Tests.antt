-- ===== src/Pairing/Tests.antt =====
-- A concrete ceremony, and the theorems about it.
use glacialcast.Prelude.{
  ℕ, zero, suc, ◌≡◌, ◌↔◌, refl, true, false, inl, none, some, List, [], ◌∷◌, ◌++◌, codes, pos, ok,
  to_be_bytes, arith, ◌<ℤ◌, LeSum, LeWithin,
}
use glacialcast.Native.Types.{IdentitySecret, SignatureBytes}
use glacialcast.Native.Identity.{
  public_of, fingerprint, sign, verify, validate, signing_digest, signature_from_bytes,
  signature_to_bytes,
}
use glacialcast.Native.Descriptor.{trim, trim_start, trim_end, utf8_len, any_control}
use glacialcast.Native.Tests.{toy, toy-laws, publisher, identity}
use glacialcast.Pairing.Types.{
  PairRequest, PairOffer, ViewerConfirmation, PublisherDecision, manual_verified, rejected,
  clock_skew_ms,
}
use glacialcast.Pairing.Checks.{validate_time, validate_device_label, verify_signed, domain_hash}
use glacialcast.Pairing.Request.{
  validate_request_metadata, new_request, verify_request, request_id, encode_request,
  decode_request,
}
use glacialcast.Pairing.Offer.{
  validate_offer_metadata, answers_request, new_offer, verify_offer, transcript_hash,
}
use glacialcast.Pairing.Decision.{validate_decision, sign_decision, reject, verify_decision}
use glacialcast.Pairing.Words.{Text, lines_from, wordlist, render, authentication_string}
use glacialcast.Pairing.Windows.{validate_time_iff}
use glacialcast.Pairing.Completion.{Completed, ceremony_completes, new_offer-verify_offer}
use glacialcast.Pairing.Comparison.{Compared, authentication_string-Compared}
use glacialcast.Pairing.Deciding.{DecidedBy, verify_decision-DecidedBy}
use glacialcast.Pairing.Policy.{Unattended-verify_decision}
use glacialcast.Pairing.Canonical.{encode_request_iff}
use glacialcast.Pairing.Texts.{written, written-laws}

abbrev pub viewer : IdentitySecret
viewer = record { signing_secret = 15; kem_secret = 16 }

-- What the toy's signatures look like.
abbrev signature : ℕ → SignatureBytes
signature n = record { first = to_be_bytes 32 0; second = to_be_bytes 32 n }

abbrev pub request : PairRequest
request = record {
  body = record {
    version = 2;
    protocol_version = 9;
    publisher = identity;
    stream_id = 2;
    viewer = record { version = 1; signing_key = 16; kem_key = 18 };
    viewer_credential = none;
    device_label = codes "tablet";
    nonce = 7;
    issued_at_ms = pos 1_000;
    expires_at_ms = pos 90_000;
  };
  signature = record { first = to_be_bytes 32 0; second = to_be_bytes 32 78 };
}

abbrev pub offer : PairOffer
offer = record {
  body = record {
    version = 2;
    request_id = 127;
    publisher = identity;
    viewer_id = 24;
    nonce = 5;
    relay_context = 6;
    issued_at_ms = pos 2_000;
    expires_at_ms = pos 80_000;
  };
  signature = record { first = to_be_bytes 32 0; second = to_be_bytes 32 66 };
}

abbrev pub confirmation : ViewerConfirmation
confirmation = record {
  body = record {
    version = 2;
    request_id = 127;
    transcript_hash = 39;
    viewer_id = 24;
    confirmed_at_ms = pos 3_000;
  };
  signature = record { first = to_be_bytes 32 0; second = to_be_bytes 32 85 };
}

abbrev pub decision : PublisherDecision
decision = record {
  body = record {
    version = 2;
    request_id = 127;
    viewer_id = 24;
    stream_id = 2;
    transcript_hash = 39;
    approved = true;
    reason = manual_verified;
    decided_at_ms = pos 4_000;
  };
  signature = record { first = to_be_bytes 32 0; second = to_be_bytes 32 79 };
}

new_request_example :
    new_request toy written viewer identity 2 (codes "tablet") none 7 (pos 1_000) (pos 90_000)
    ≡ ok request
unfolding new_request validate_request_metadata validate_device_label public_of sign validate
    signing_digest signature_from_bytes trim trim_start trim_end utf8_len any_control to_be_bytes
new_request_example = refl

new_offer_example :
    new_offer toy written publisher request 6 5 (pos 2_000) (pos 80_000) (pos 100_000) ≡ ok offer
unfolding new_offer verify_request validate_time validate_request_metadata validate_offer_metadata
    validate_device_label verify_signed verify request_id domain_hash fingerprint public_of sign
    validate signing_digest signature_from_bytes signature_to_bytes trim trim_start trim_end
    utf8_len any_control to_be_bytes
new_offer_example = refl

decision_passes : verify_decision toy written decision request identity ≡ ok tt
unfolding verify_decision validate_decision verify_signed verify request_id domain_hash fingerprint
    validate signing_digest signature_to_bytes to_be_bytes
decision_passes = refl

ceremony_completes_example :
    Completed toy written viewer publisher request offer (pos 3_000) (pos 4_000)
unfolding domain_hash
ceremony_completes_example =
    ceremony_completes toy written toy-laws viewer publisher identity 2 (codes "tablet") none 7
      (pos 1_000) (pos 90_000) request 6 5 (pos 2_000) (pos 80_000) (pos 100_000) offer (pos 3_000)
      (pos 4_000) new_request_example new_offer_example (omega arith)

new_offer-verify_offer_example :
    (verify_offer toy written offer request (pos 5_000) (pos 100_000) ≡ ok tt) ↔ (
      (validate_time (pos 1_000) (pos 90_000) (pos 5_000) (pos 100_000) ≡ ok tt)
      × (validate_time (pos 2_000) (pos 80_000) (pos 5_000) (pos 100_000) ≡ ok tt))
new_offer-verify_offer_example =
    new_offer-verify_offer toy written toy-laws viewer publisher identity 2 (codes "tablet") none 7
      (pos 1_000) (pos 90_000) request 6 5 (pos 2_000) (pos 80_000) (pos 100_000) offer (pos 5_000)
      (pos 100_000) new_request_example new_offer_example

validate_time_iff_example :
    (validate_time (pos 1_000) (pos 90_000) (pos 5_000) (pos 100_000) ≡ ok tt) ↔ (
      pos 1_000 <ℤ pos 90_000
      × LeSum (pos 90_000) (pos 1_000) (pos 100_000)
      × LeWithin (pos 1_000) (pos 5_000) clock_skew_ms
      × pos 5_000 <ℤ pos 90_000)
validate_time_iff_example =
    validate_time_iff (pos 1_000) (pos 90_000) (pos 5_000) (pos 100_000) (omega arith) (omega arith)

verify_decision-DecidedBy_example : DecidedBy toy written identity request decision
verify_decision-DecidedBy_example =
    verify_decision-DecidedBy toy written decision request identity decision_passes

abbrev refusal : PublisherDecision
refusal = record {
  body = record {
    version = 2;
    request_id = 127;
    viewer_id = 24;
    stream_id = 2;
    transcript_hash = 0;
    approved = false;
    reason = rejected;
    decided_at_ms = pos 4_000;
  };
  signature = record { first = to_be_bytes 32 0; second = to_be_bytes 32 79 };
}

refused : reject toy written publisher request (pos 4_000) ≡ ok refusal
unfolding reject sign_decision validate_decision public_of sign request_id domain_hash fingerprint
    validate signing_digest signature_from_bytes to_be_bytes
refused = refl

stated : validate_request_metadata toy request.body ≡ ok tt
unfolding validate_request_metadata validate_device_label validate trim trim_start trim_end utf8_len
    any_control
stated = refl

Unattended-verify_decision_example : verify_decision toy written refusal request identity ≡ ok tt
Unattended-verify_decision_example =
    Unattended-verify_decision toy written toy-laws publisher request refusal stated
      (inl (pos 4_000, refused))

encode_request_iff_example :
    (encode_request toy written request ≡ ok (written.request_bytes request))
    ↔ (decode_request toy written (written.request_bytes request) ≡ ok request)
encode_request_iff_example =
    encode_request_iff toy written written-laws request (written.request_bytes request)

line_text : ℕ → Text
line_text zero = []
line_text (suc n) = codes "ice" ++ (0x0a ∷ line_text n)

words : ℕ → List Text
words zero = []
words (suc n) = codes "ice" ∷ words n

listed : wordlist (line_text 1024) ≡ some (words 1024)
unfolding wordlist lines_from line_text words
listed = refl

shown :
    authentication_string toy written (words 1024) request offer
    ≡ ok (some (codes "ice-ice-ice 00"))
unfolding authentication_string render transcript_hash answers_request validate_request_metadata
    validate_offer_metadata validate_device_label request_id domain_hash fingerprint validate trim
    trim_start trim_end utf8_len any_control words to_be_bytes
shown = refl

authentication_string-Compared_example :
    (hash : ℕ) × (transcript_hash toy written request offer ≡ ok hash)
    × Compared (words 1024) hash (some (codes "ice-ice-ice 00"))
authentication_string-Compared_example =
    authentication_string-Compared toy written (line_text 1024) (words 1024) request offer
      (some (codes "ice-ice-ice 00")) listed shown
