-- ===== src/Native/Guard.antt =====
-- crates/protocol/src/native.rs: `LiveSequenceGuard`, which keeps old objects out of a live tail.
use glacialcast.Prelude.{ℕ, not, ◌||◌, Result, ok, ◌>>◌, fail_if, leb, ◌==◌}
use glacialcast.Native.Types.{NativeStreamError, wrong_context, sequence_regression, NativeObject}

pub record LiveSequenceGuard : Type 0 where
  pub publisher_id : ℕ
  pub stream_id : ℕ
  pub last_sequence : ℕ

unfoldable pub anchored : ℕ → ℕ → ℕ → LiveSequenceGuard
anchored publisher_id stream_id anchor_sequence = record {
  publisher_id = publisher_id;
  stream_id = stream_id;
  last_sequence = anchor_sequence;
}

unfoldable pub accept :
    LiveSequenceGuard → NativeObject → Result NativeStreamError LiveSequenceGuard
accept g o = do
  fail_if (not (o.header.publisher_id == g.publisher_id) || not (o.header.stream_id == g.stream_id))
      wrong_context
  fail_if (leb o.header.sequence g.last_sequence) sequence_regression
  ok (record g { last_sequence = o.header.sequence })
