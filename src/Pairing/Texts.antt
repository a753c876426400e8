-- ===== src/Pairing/Texts.antt =====
-- Serializers for pairing messages, to stand for Postcard in the tests.
use glacialcast.Prelude.{ℕ, zero, suc, ◌≡◌, refl, Bool, Option, List, [], ℤ}
use glacialcast.Native.Types.{IdentityPublic, SignatureBytes}
use glacialcast.Native.Formats.{
  Format, number, numbers, both, converted, integer, flag, optional, identity_format,
  signature_format,
}
use glacialcast.Credential.Types.{NativeCredential}
use glacialcast.Credential.Texts.{credential_format}
use glacialcast.Pairing.Types.{
  PairRequestBody, PairRequest, PairOfferBody, PairOffer, ViewerConfirmationBody,
  ViewerConfirmation, PairDecisionReason, manual_verified, trusted_viewer_ca, open_policy, rejected,
  PublisherDecisionBody, PublisherDecision,
}
use glacialcast.Pairing.Postcard.{PairingPostcard, PairingPostcardLaws}

abbrev pub RequestParts : Type 0
RequestParts =
    ((ℕ × ℕ) × (IdentityPublic × IdentityPublic))
    × ((ℕ × ℕ) × ((Option NativeCredential × List ℕ) × (ℤ × ℤ)))

abbrev pub request_of : RequestParts → PairRequestBody
request_of (((v, w), (p, q)), ((s, n), ((c, l), (i, e)))) = record {
  version = v;
  protocol_version = w;
  publisher = p;
  stream_id = s;
  viewer = q;
  viewer_credential = c;
  device_label = l;
  nonce = n;
  issued_at_ms = i;
  expires_at_ms = e;
}

abbrev pub request_parts : PairRequestBody → RequestParts
request_parts b = (
  ((b.version, b.protocol_version), (b.publisher, b.viewer)),
  (
    (b.stream_id, b.nonce),
    ((b.viewer_credential, b.device_label), (b.issued_at_ms, b.expires_at_ms)),
  ),
)

abbrev pub request_format : Format PairRequest
request_format =
    converted (λ (p : PairRequestBody × SignatureBytes). record { body = p.0; signature = p.1 })
      (λ (r : PairRequest). (r.body, r.signature)) (λ r. refl)
      (both
        (converted request_of request_parts (λ b. refl)
          (both (both (both number number) (both identity_format identity_format)) (
            both (both number number)
              (both (both (optional credential_format) numbers) (both integer integer)))))
        signature_format)

abbrev pub OfferParts : Type 0
OfferParts = ((ℕ × ℕ) × (IdentityPublic × ℕ)) × ((ℕ × ℕ) × (ℤ × ℤ))

abbrev pub offer_of : OfferParts → PairOfferBody
offer_of (((v, r), (p, w)), ((n, c), (i, e))) = record {
  version = v;
  request_id = r;
  publisher = p;
  viewer_id = w;
  nonce = n;
  relay_context = c;
  issued_at_ms = i;
  expires_at_ms = e;
}

abbrev pub offer_parts : PairOfferBody → OfferParts
offer_parts b = (
  ((b.version, b.request_id), (b.publisher, b.viewer_id)),
  ((b.nonce, b.relay_context), (b.issued_at_ms, b.expires_at_ms)),
)

abbrev pub offer_format : Format PairOffer
offer_format =
    converted (λ (p : PairOfferBody × SignatureBytes). record { body = p.0; signature = p.1 })
      (λ (o : PairOffer). (o.body, o.signature)) (λ o. refl)
      (both
        (converted offer_of offer_parts (λ b. refl)
          (both (both (both number number) (both identity_format number))
            (both (both number number) (both integer integer))))
        signature_format)

abbrev pub confirmation_of : (ℕ × ℕ) × ((ℕ × ℕ) × ℤ) → ViewerConfirmationBody
confirmation_of ((v, r), ((t, w), c)) = record {
  version = v;
  request_id = r;
  transcript_hash = t;
  viewer_id = w;
  confirmed_at_ms = c;
}

abbrev pub confirmation_format : Format ViewerConfirmation
confirmation_format =
    converted
      (λ (p : ViewerConfirmationBody × SignatureBytes). record { body = p.0; signature = p.1 })
      (λ (c : ViewerConfirmation). (c.body, c.signature)) (λ c. refl)
      (both
        (converted confirmation_of
          (λ b. ((b.version, b.request_id), ((b.transcript_hash, b.viewer_id), b.confirmed_at_ms)))
          (λ b. refl) (both (both number number) (both (both number number) integer)))
        signature_format)

abbrev pub reason_of : ℕ → PairDecisionReason
reason_of zero = manual_verified
reason_of (suc zero) = trusted_viewer_ca
reason_of (suc (suc zero)) = open_policy
reason_of (suc (suc (suc n))) = rejected

abbrev pub reason_code : PairDecisionReason → ℕ
reason_code manual_verified = 0
reason_code trusted_viewer_ca = 1
reason_code open_policy = 2
reason_code rejected = 3

pub reason_of-reason_code : (r : PairDecisionReason) → reason_of (reason_code r) ≡ r
reason_of-reason_code manual_verified = refl
reason_of-reason_code trusted_viewer_ca = refl
reason_of-reason_code open_policy = refl
reason_of-reason_code rejected = refl

abbrev pub DecisionParts : Type 0
DecisionParts = ((ℕ × ℕ) × (ℕ × ℕ)) × ((ℕ × Bool) × (PairDecisionReason × ℤ))

abbrev pub decision_of : DecisionParts → PublisherDecisionBody
decision_of (((v, r), (w, s)), ((t, a), (e, d))) = record {
  version = v;
  request_id = r;
  viewer_id = w;
  stream_id = s;
  transcript_hash = t;
  approved = a;
  reason = e;
  decided_at_ms = d;
}

abbrev pub decision_parts : PublisherDecisionBody → DecisionParts
decision_parts b = (
  ((b.version, b.request_id), (b.viewer_id, b.stream_id)),
  ((b.transcript_hash, b.approved), (b.reason, b.decided_at_ms)),
)

abbrev pub decision_format : Format PublisherDecision
decision_format =
    converted
      (λ (p : PublisherDecisionBody × SignatureBytes). record { body = p.0; signature = p.1 })
      (λ (d : PublisherDecision). (d.body, d.signature)) (λ d. refl)
      (both
        (converted decision_of decision_parts (λ b. refl)
          (both (both (both number number) (both number number)) (
            both (both number flag)
              (both (converted reason_of reason_code reason_of-reason_code number) integer))))
        signature_format)

abbrev pub written : PairingPostcard
written = record {
  request_body_bytes = λ b. [];
  request_bytes = request_format.write;
  take_request = request_format.read;
  offer_body_bytes = λ b. [];
  offer_bytes = offer_format.write;
  take_offer = offer_format.read;
  transcript_bytes = λ t. [];
  confirmation_body_bytes = λ b. [];
  confirmation_bytes = confirmation_format.write;
  take_confirmation = confirmation_format.read;
  decision_body_bytes = λ b. [];
  decision_bytes = decision_format.write;
  take_decision = decision_format.read;
}

pub written-laws : PairingPostcardLaws written
written-laws = record {
  take-request = request_format.read-write;
  take-offer = offer_format.read-write;
  take-confirmation = confirmation_format.read-write;
  take-decision = decision_format.read-write;
}
