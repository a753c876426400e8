-- ===== src/PairingStore/Tests.antt =====
-- A concrete ceremony in the relay's queue, and the theorems about it.
use glacialcast.Prelude.{
  ℕ, ◌≡◌, refl, subst, none, List, [], ◌∷◌, All, codes, pos, ok, arith, to_be_bytes, ◌⊎◌,
}
use glacialcast.Native.Identity.{fingerprint, verify, validate, signing_digest, signature_to_bytes}
use glacialcast.Native.Descriptor.{trim, trim_start, trim_end, utf8_len, any_control}
use glacialcast.Native.Tests.{toy, identity}
use glacialcast.Pairing.Types.{ViewerConfirmation}
use glacialcast.Pairing.Checks.{validate_time, validate_device_label, verify_signed, domain_hash}
use glacialcast.Pairing.Request.{validate_request_metadata, verify_request, request_id}
use glacialcast.Pairing.Texts.{written, written-laws, request_format}
use glacialcast.Pairing.Tests.{request, offer, confirmation, decision}
use glacialcast.Relay.Statements.{find, count, delete_where}
use glacialcast.PairingStore.Rows.{PairRow, PairRequestDelivery}
use glacialcast.PairingStore.Statements.{purge, insert_request, require_count_below, encode_pair}
use glacialcast.PairingStore.Store.{
  check_limits, insert_within_limits, enqueue_row, enqueue_request,
}
use glacialcast.PairingStore.Inbox.{publisher_inbox}
use glacialcast.PairingStore.Calls.{Call, enqueue, confirm, decide, call, calls}
use glacialcast.PairingStore.Ceremonies.{Ceremony}
use glacialcast.PairingStore.Sound.{calls-Ceremony}
use glacialcast.PairingStore.Stages.{Moves, call-Moves}
use glacialcast.PairingStore.Bounds.{WithinBounds, calls-WithinBounds}
use glacialcast.PairingStore.Address.{v4, parse_socket_addr}
use glacialcast.PairingStore.Delivery.{Located, DeliversWaiting, publisher_inbox-Delivered}

abbrev source : List ℕ
source = codes "127.0.0.1:4321"

abbrev history : List Call
history =
    enqueue request source (pos 1_500) (pos 100_000)
    ∷ (Call.offer offer (pos 2_100) (pos 100_000)
        ∷ (confirm confirmation (pos 3_100) ∷ (decide decision (pos 4_100) ∷ [])))

calls-Ceremony_example : All (Ceremony toy written) (calls toy written [] history)
calls-Ceremony_example = calls-Ceremony toy written written-laws [] history tt

nothing_pending : WithinBounds []
unfolding count
nothing_pending = record { global = omega arith; by_publisher = λ p. omega arith }

calls-WithinBounds_example : WithinBounds (calls toy written [] history)
calls-WithinBounds_example = calls-WithinBounds toy written written-laws [] history nothing_pending

abbrev queued : PairRow
queued = record {
  request_id = 127;
  publisher_id = 24;
  viewer_id = 24;
  source_addr = source;
  received_at_ms = pos 1_500;
  expires_at_ms = pos 90_000;
  request = request_format.write request;
  offer = none;
  confirmation = none;
  decision = none;
  decided_at_ms = none;
}

call-Moves_example :
    (call toy written (queued ∷ []) (Call.offer offer (pos 2_100) (pos 100_000)) ≡ queued ∷ [])
    ⊎ Moves
        (purge (queued ∷ []) (pos 2_100))
        (call toy written (queued ∷ []) (Call.offer offer (pos 2_100) (pos 100_000)))
call-Moves_example =
    call-Moves toy written written-laws (queued ∷ []) (Call.offer offer (pos 2_100) (pos 100_000))

abbrev first_call : List Call
first_call = enqueue request source (pos 1_500) (pos 100_000) ∷ []

first_call-queued : calls toy written [] first_call ≡ queued ∷ []
unfolding calls call enqueue_request enqueue_row insert_within_limits check_limits
    require_count_below insert_request encode_pair purge verify_request validate_time
    validate_request_metadata validate_device_label verify_signed verify request_id domain_hash
    fingerprint validate signing_digest signature_to_bytes find count delete_where trim trim_start
    trim_end utf8_len any_control to_be_bytes
first_call-queued = refl

queued-Ceremony : All (Ceremony toy written) (queued ∷ [])
queued-Ceremony =
    subst (All (Ceremony toy written)) first_call-queued
      (calls-Ceremony toy written written-laws [] first_call tt)

queued-WithinBounds : WithinBounds (queued ∷ [])
queued-WithinBounds =
    subst WithinBounds first_call-queued
      (calls-WithinBounds toy written written-laws [] first_call nothing_pending)

identity_named : fingerprint toy identity ≡ ok 24
unfolding fingerprint validate
identity_named = refl

queued-Located : All Located (queued ∷ [])
unfolding parse_socket_addr
queued-Located = ((v4 (127 ∷ (0 ∷ (0 ∷ (1 ∷ [])))) 4_321, refl), tt)

publisher_inbox-Delivered_example :
    (ds : List PairRequestDelivery) × (cs : List ViewerConfirmation) × (publisher_inbox toy written
        (queued ∷ [])
        identity
        (pos 2_000)
      ≡ ok (purge (queued ∷ []) (pos 2_000), record { requests = ds; confirmations = cs }))
    × DeliversWaiting toy written 24 (pos 2_000) (queued ∷ []) ds cs
publisher_inbox-Delivered_example =
    publisher_inbox-Delivered toy written (queued ∷ []) identity 24 (pos 2_000) queued-Ceremony
      (omega arith) queued-Located queued-WithinBounds identity_named
