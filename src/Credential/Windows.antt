-- ===== src/Credential/Windows.antt =====
-- crates/protocol/src/credential.rs: validity ranges on `i64` times, and the order that their tests stand for.
use glacialcast.Prelude.{
  ◌≡◌, false, ◌↔◌, ℤ, pos, negsuc, ok, arith, ltb_ℤ, leb_ℤ, ◌<ℤ◌, ◌≤ℤ◌, LeWithin,
}
use glacialcast.Credential.Types.{max_credential_lifetime_ms}
use glacialcast.Credential.Authority.{validate_time_range}

pub ltb_ℤ-false : (a b : ℤ) → (ltb_ℤ b a ≡ false) ↔ (a ≤ℤ b)
ltb_ℤ-false (pos a) (pos b) = ground arith
ltb_ℤ-false (pos a) (negsuc b) = ground arith
ltb_ℤ-false (negsuc a) (pos b) = ground arith
ltb_ℤ-false (negsuc a) (negsuc b) = ground arith

pub leb_ℤ-false : (a b : ℤ) → (leb_ℤ b a ≡ false) ↔ (a <ℤ b)
leb_ℤ-false (pos a) (pos b) = ground arith
leb_ℤ-false (pos a) (negsuc b) = ground arith
leb_ℤ-false (negsuc a) (pos b) = ground arith
leb_ℤ-false (negsuc a) (negsuc b) = ground arith

-- validate_time_range passes exactly the ranges that end after they begin, by
-- MAX_CREDENTIAL_LIFETIME_MS at most, whether or not the difference fits an i64.
pub validate_time_range_iff :
    (not_before_ms not_after_ms : ℤ)
    → (validate_time_range not_before_ms not_after_ms ≡ ok tt) ↔ (
        not_before_ms <ℤ not_after_ms
        × LeWithin not_after_ms not_before_ms max_credential_lifetime_ms)
unfolding validate_time_range
validate_time_range_iff (pos a) (pos b) = ground arith
validate_time_range_iff (pos a) (negsuc b) = ground arith
validate_time_range_iff (negsuc a) (pos b) = ground arith
validate_time_range_iff (negsuc a) (negsuc b) = ground arith
