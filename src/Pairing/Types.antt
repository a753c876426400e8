-- ===== src/Pairing/Types.antt =====
-- crates/protocol/src/pairing.rs: the data of pairing messages. A fixed-size identifier, nonce or hash is the
-- number that its big-endian bytes stand for, and a device label is given by its code points.
use glacialcast.Prelude.{ℕ, ◌*◌, Bool, Option, Bytes, List, codes, String, ℤ}
use glacialcast.Native.Types.{IdentityError, IdentityPublic, SignatureBytes}
use glacialcast.Credential.Types.{NativeCredential}

-- `PROTOCOL_VERSION` of crates/protocol/src/lib.rs.
abbrev pub protocol_version : ℕ
protocol_version = 9

abbrev pub pairing_version : ℕ
pairing_version = 2

abbrev pub max_pairing_message_len : ℕ
max_pairing_message_len = 32 * 1024

abbrev pub max_device_label_len : ℕ
max_device_label_len = 128

abbrev pub request_domain : Bytes
request_domain = codes "glacialcast-pair-request-v2"

abbrev pub offer_domain : Bytes
offer_domain = codes "glacialcast-pair-offer-v2"

abbrev pub confirm_domain : Bytes
confirm_domain = codes "glacialcast-pair-viewer-confirm-v2"

abbrev pub decision_domain : Bytes
decision_domain = codes "glacialcast-pair-publisher-decision-v2"

abbrev pub transcript_domain : Bytes
transcript_domain = codes "glacialcast-pair-transcript-v2"

abbrev pub request_id_domain : Bytes
request_id_domain = codes "glacialcast-pair-request-id-v2"

abbrev pub clock_skew_ms : ℕ
clock_skew_ms = 5 * 60 * 1_000

pub data PairingError : Type 0 where
  unsupported_version : PairingError
  invalid_metadata : String → PairingError
  invalid_signature not_yet_valid expired transcript_mismatch postcard : PairingError
  identity : IdentityError → PairingError

pub record PairRequestBody : Type 0 where
  pub version : ℕ
  pub protocol_version : ℕ
  pub publisher : IdentityPublic
  pub stream_id : ℕ
  pub viewer : IdentityPublic
  pub viewer_credential : Option NativeCredential
  pub device_label : List ℕ
  pub nonce : ℕ
  pub issued_at_ms : ℤ
  pub expires_at_ms : ℤ

pub record PairRequest : Type 0 where
  pub body : PairRequestBody
  pub signature : SignatureBytes

pub record PairOfferBody : Type 0 where
  pub version : ℕ
  pub request_id : ℕ
  pub publisher : IdentityPublic
  pub viewer_id : ℕ
  pub nonce : ℕ
  pub relay_context : ℕ
  pub issued_at_ms : ℤ
  pub expires_at_ms : ℤ

pub record PairOffer : Type 0 where
  pub body : PairOfferBody
  pub signature : SignatureBytes

pub record PairTranscript : Type 0 where
  pub protocol_version : ℕ
  pub request : PairRequest
  pub offer : PairOffer

pub record ViewerConfirmationBody : Type 0 where
  pub version : ℕ
  pub request_id : ℕ
  pub transcript_hash : ℕ
  pub viewer_id : ℕ
  pub confirmed_at_ms : ℤ

pub record ViewerConfirmation : Type 0 where
  pub body : ViewerConfirmationBody
  pub signature : SignatureBytes

pub data PairDecisionReason : Type 0 where
  manual_verified trusted_viewer_ca open_policy rejected : PairDecisionReason

pub record PublisherDecisionBody : Type 0 where
  pub version : ℕ
  pub request_id : ℕ
  pub viewer_id : ℕ
  pub stream_id : ℕ
  pub transcript_hash : ℕ
  pub approved : Bool
  pub reason : PairDecisionReason
  pub decided_at_ms : ℤ

pub record PublisherDecision : Type 0 where
  pub body : PublisherDecisionBody
  pub signature : SignatureBytes
