-- ===== src/Relay/Tests.antt =====
-- Concrete tables and calls, and the theorems about them at concrete inputs.
use glacialcast.Prelude.{
  ℕ, suc, Distinct, from_be_bytes, ◌+◌, ◌≡◌, refl, true, false, none, some, List, [], ◌∷◌, length,
  to_be_bytes, pos, arith, ok, codes,
}
use glacialcast.Native.Types.{StreamDescriptorBody, StreamDescriptor, NativeObject}
use glacialcast.Native.External.{External}
use glacialcast.Native.Identity.{fingerprint, verify, validate, signing_digest, signature_to_bytes}
use glacialcast.Native.Header.{validate_header, validate_codec}
use glacialcast.Native.H264.{max_ciphertext}
use glacialcast.Native.Object.{validate_shape, verify_public, encode_object}
use glacialcast.Native.Descriptor.{
  new_body, validate_descriptor_body, validate_label, verify_descriptor, encode_descriptor,
  decode_descriptor,
}
use glacialcast.Native.Tests.{toy, identity, sealed_frame}
use glacialcast.Relay.Rows.{
  NativeStore, NativeCommit, GroupRow, Database, default_limits, SubscriptionStart,
}
use glacialcast.Relay.Statements.{
  find, count, first_by, insert_stream, insert_group, insert_object, update_stream, complete_group,
  update_group, delete_group, sum_bytes, bytes_where, update_one, delete_one, delete_where,
}
use glacialcast.Relay.Retention.{bytes_exceeded, check_group_growth, enforce_retention, retain}
use glacialcast.Relay.Groups.{
  descriptor_in, enter_group, same_group, start_group, validate_group_progression,
}
use glacialcast.Relay.Store.{append_object, put_descriptor, put_row, store_encoded, store_object}
use glacialcast.Relay.Queries.{subscription_anchor}
use glacialcast.Relay.Rowsets.{keys}
use glacialcast.Relay.Settling.{Settled}
use glacialcast.Relay.Evicting.{Kept, enforce_retention-Kept, enforce_retention-Settled}
use glacialcast.Relay.Streams.{mark}
use glacialcast.Relay.History.{Stores, store_object-Stores}
use glacialcast.Relay.Sequences.{
  Request, answer, answers, answers-count_from, call, calls, count_from, put, store,
}
use glacialcast.Relay.Quota.{WithinQuota}
use glacialcast.Relay.Limits.{calls-WithinQuota}
use glacialcast.Relay.Anchors.{Anchored, subscription_anchor-Anchored}

abbrev screen_body : StreamDescriptorBody
screen_body = new_body identity 2 (codes "screen") (codes "DP-1") true (pos 1)

-- A serializer that knows one descriptor.
abbrev relay_toy : External
relay_toy = record toy {
  descriptor_bytes = λ d. 7 ∷ [];
  take_descriptor = λ bytes. some (
    record {
      body = screen_body;
      signature = record { first = to_be_bytes 32 0; second = to_be_bytes 32 73 };
    },
    [],
  );
  object_bytes = λ o. o.header.sequence ∷ o.ciphertext;
}

abbrev screen : StreamDescriptor
screen = record {
  body = screen_body;
  signature = record { first = to_be_bytes 32 0; second = to_be_bytes 32 73 };
}

abbrev limits : NativeStore
limits = record { retention_bytes = some 30; retention_age = none; limits = default_limits }

abbrev start : Database
start = record {
  streams =
      record {
        stream_id = 2;
        publisher_id = 24;
        descriptor = 7 ∷ [];
        high_water = 4;
        active_epoch = none;
        active_group = none;
      }
      ∷ [];
  groups = [];
  objects = [];
  envelopes = [];
}

abbrev next_frame : NativeObject
next_frame = record sealed_frame {
  header = record sealed_frame.header {
    sequence = 6;
    key_group = 2;
    nonce = 1 ∷ 2 ∷ 3 ∷ 4 ∷ 0 ∷ 0 ∷ 0 ∷ 0 ∷ 0 ∷ 0 ∷ 0 ∷ 6 ∷ [];
  };
}

-- A frame, its retry, a frame out of order and the one that starts the next group, which evicts the first.
abbrev requests : List Request
requests =
    put screen
    ∷ store sealed_frame (pos 1_000)
    ∷ store sealed_frame (pos 1_001)
    ∷ store (record next_frame { ciphertext_hash = 3 }) (pos 1_002)
    ∷ store next_frame (pos 1_003)
    ∷ []

acknowledgements : answers relay_toy limits 2 start requests ≡ 5 ∷ 6 ∷ []
unfolding answers answer call put_descriptor put_row insert_stream store_object store_encoded
    append_object enter_group start_group same_group validate_group_progression descriptor_in
    check_group_growth enforce_retention retain bytes_exceeded sum_bytes find count first_by
    insert_group insert_object update_stream complete_group update_group delete_group
    encode_descriptor decode_descriptor verify_descriptor validate_descriptor_body validate_label
    verify validate signing_digest signature_to_bytes fingerprint validate_shape verify_public
    encode_object validate_header validate_codec max_ciphertext to_be_bytes from_be_bytes update_one
    delete_one delete_where bytes_where
acknowledgements = refl

answers-count_from_example :
    (answers relay_toy limits 2 start requests
      ≡ count_from
          (suc (mark start.streams 2))
          (length (answers relay_toy limits 2 start requests)))
    × (mark (calls relay_toy limits start requests).streams 2
        ≡ mark start.streams 2 + length (answers relay_toy limits 2 start requests))
answers-count_from_example = answers-count_from relay_toy limits 2 start requests

calls-WithinQuota_example : WithinQuota limits (calls relay_toy limits start requests)
unfolding bytes_where
calls-WithinQuota_example =
    calls-WithinQuota relay_toy limits start requests (record { total = omega arith; each = tt })

abbrev first_group : GroupRow
first_group = record {
  key = record { stream_id = 2; epoch_id = 3; key_group = 1 };
  key_id = 9;
  first_sequence = 5;
  last_sequence = 5;
  first_timestamp = 90;
  last_timestamp = 90;
  received_first_ms = pos 1_000;
  received_last_ms = pos 1_000;
  retained_bytes = 21;
  complete = false;
}

abbrev stored : Database
stored = record {
  streams =
      record {
        stream_id = 2;
        publisher_id = 24;
        descriptor = 7 ∷ [];
        high_water = 5;
        active_epoch = some 3;
        active_group = some 1;
      }
      ∷ [];
  groups = first_group ∷ [];
  objects =
      record {
        group = first_group.key;
        sequence = 5;
        received_at_ms = pos 1_000;
        object = 5 ∷ sealed_frame.ciphertext;
      }
      ∷ [];
  envelopes = [];
}

abbrev receipt : NativeCommit
receipt = record { committed_through = 5; evicted_groups = 0; inserted = true }

store_object_first :
    store_object relay_toy limits start sealed_frame (pos 1_000) ≡ ok (receipt, stored)
unfolding store_object store_encoded append_object enter_group start_group same_group
    validate_group_progression descriptor_in check_group_growth enforce_retention retain
    bytes_exceeded sum_bytes find count first_by insert_group insert_object update_stream
    complete_group update_group delete_group decode_descriptor encode_descriptor verify_descriptor
    validate_descriptor_body validate_label verify validate signing_digest signature_to_bytes
    fingerprint validate_shape verify_public encode_object validate_header validate_codec
    max_ciphertext to_be_bytes from_be_bytes update_one bytes_where
store_object_first = refl

store_object-Stores_example : Stores relay_toy start sealed_frame (pos 1_000) receipt stored
store_object-Stores_example =
    store_object-Stores relay_toy limits start stored sealed_frame (pos 1_000) receipt
      store_object_first

-- Two complete groups and an active one, of which the oldest exceeds the limit of 30 bytes.
abbrev three_groups : Database
three_groups = record stored {
  groups =
      record first_group {
        key = record { stream_id = 2; epoch_id = 3; key_group = 3 };
        first_sequence = 7;
        last_sequence = 7;
      }
      ∷ (record first_group { complete = true; retained_bytes = 40 }
          ∷ (record first_group {
            key = record { stream_id = 2; epoch_id = 3; key_group = 2 };
            first_sequence = 6;
            last_sequence = 6;
            retained_bytes = 4;
            complete = true;
          }
              ∷ []));
}

abbrev two_groups : Database
two_groups = record stored {
  groups =
      record first_group {
        key = record { stream_id = 2; epoch_id = 3; key_group = 3 };
        first_sequence = 7;
        last_sequence = 7;
      }
      ∷ (record first_group {
        key = record { stream_id = 2; epoch_id = 3; key_group = 2 };
        first_sequence = 6;
        last_sequence = 6;
        retained_bytes = 4;
        complete = true;
      }
          ∷ []);
  objects = [];
}

evict-oldest : enforce_retention limits three_groups 2 (pos 2_000) ≡ ok (1, two_groups)
unfolding enforce_retention retain bytes_exceeded sum_bytes bytes_where first_by delete_group
    delete_one delete_where
evict-oldest = refl

three_groups-Distinct : Distinct (keys three_groups.groups)
three_groups-Distinct = ((λ e. cc e, (λ e. cc e, tt)), ((λ e. cc e, tt), (tt, tt)))

enforce_retention-Kept_example : Kept 2 three_groups.groups two_groups.groups
enforce_retention-Kept_example =
    enforce_retention-Kept limits three_groups two_groups 2 (pos 2_000) 1 three_groups-Distinct
      evict-oldest

abbrev aging : NativeStore
aging = record limits { retention_age = some 5_000_000_000 }

enforce_retention-Settled_example :
    (n : ℕ) × (db' : Database) × (enforce_retention aging three_groups 2 (pos 2_000) ≡ ok (n, db'))
    × Settled aging 2 (pos 2_000) db'.groups
unfolding bytes_where
enforce_retention-Settled_example =
    enforce_retention-Settled aging three_groups 2 (pos 2_000) (omega arith)

anchor_at-six : subscription_anchor two_groups 2 (SubscriptionStart.sequence 6) ≡ ok 6
unfolding subscription_anchor find first_by
anchor_at-six = refl

subscription_anchor-Anchored_example : Anchored (SubscriptionStart.sequence 6) 2 two_groups 6
subscription_anchor-Anchored_example =
    subscription_anchor-Anchored two_groups 2 (SubscriptionStart.sequence 6) 6 anchor_at-six
