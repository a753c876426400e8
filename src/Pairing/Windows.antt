-- ===== src/Pairing/Windows.antt =====
-- crates/protocol/src/pairing.rs: the freshness of messages, on `i64` times.
use glacialcast.Prelude.{
  ◌≡◌, ◌↔◌, ℤ, pos, negsuc, ok, arith, InRange, i64_half, ◌<ℤ◌, LeWithin, LeSum,
}
use glacialcast.Pairing.Types.{clock_skew_ms}
use glacialcast.Pairing.Checks.{validate_time}

-- For an issue time and a maximum lifetime that fit an i64, validate_time passes exactly when
-- the message expires after it was issued, within the maximum lifetime, was issued no later
-- than the allowed clock skew after now, and expires after now.
pub validate_time_iff :
    (issued_at_ms expires_at_ms now_ms max_lifetime_ms : ℤ)
    → InRange i64_half issued_at_ms
    → InRange i64_half max_lifetime_ms
    → (validate_time issued_at_ms expires_at_ms now_ms max_lifetime_ms ≡ ok tt) ↔ (
        issued_at_ms <ℤ expires_at_ms
        × LeSum expires_at_ms issued_at_ms max_lifetime_ms
        × LeWithin issued_at_ms now_ms clock_skew_ms
        × now_ms <ℤ expires_at_ms)
unfolding validate_time
validate_time_iff (pos a) (pos b) (pos n) (pos m) i j = ground arith
validate_time_iff (pos a) (pos b) (negsuc n) (pos m) i j = ground arith
validate_time_iff (pos a) (negsuc b) (pos n) (pos m) i j = ground arith
validate_time_iff (pos a) (negsuc b) (negsuc n) (pos m) i j = ground arith
validate_time_iff (negsuc a) (pos b) (pos n) (pos m) i j = ground arith
validate_time_iff (negsuc a) (pos b) (negsuc n) (pos m) i j = ground arith
validate_time_iff (negsuc a) (negsuc b) (pos n) (pos m) i j = ground arith
validate_time_iff (negsuc a) (negsuc b) (negsuc n) (pos m) i j = ground arith
validate_time_iff (pos a) (pos b) (pos n) (negsuc m) i j = ground arith
validate_time_iff (pos a) (pos b) (negsuc n) (negsuc m) i j = ground arith
validate_time_iff (pos a) (negsuc b) (pos n) (negsuc m) i j = ground arith
validate_time_iff (pos a) (negsuc b) (negsuc n) (negsuc m) i j = ground arith
validate_time_iff (negsuc a) (pos b) (pos n) (negsuc m) i j = ground arith
validate_time_iff (negsuc a) (pos b) (negsuc n) (negsuc m) i j = ground arith
validate_time_iff (negsuc a) (negsuc b) (pos n) (negsuc m) i j = ground arith
validate_time_iff (negsuc a) (negsuc b) (negsuc n) (negsuc m) i j = ground arith
