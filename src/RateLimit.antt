-- ===== src/RateLimit.antt =====
-- The account rate limiter (rs/base/src/ratelimit.rs): pacing, minute and day caps, a token bucket
-- and a circuit breaker. Times are integers; `f64` and its operations are a parameter.
pub mod Limiter
pub mod Tests
use Prim.Native.Nat.{bit_xor}
use tenon.Prelude.{
  ℕ, zero, suc, ◌+◌, ◌-◌, ◌*◌, ◌%◌, ◌^◌, min, max, String, Bool, true, false, Option, none, some,
  leb, ltb, if◌then◌else◌,
}
use tenon.Prelude.Int.{ℤ, pos, negsuc, ◌+ℤ◌, ◌-ℤ◌, leb_ℤ, min_ℤ, sat_mul, wrap_i64}

abbrev pub day_ms : ℤ
day_ms = pos 86_400_000

abbrev pub minute_ms : ℤ
minute_ms = pos 60_000

pub record RateConfig : Type 0 where
  pub rpm : ℕ
  pub rpd : ℕ
  pub min_gap_ms : ℤ
  pub jitter_ms : ℤ
  pub concurrency : ℕ
  pub breaker_threshold : ℕ
  pub breaker_max_opens : ℕ
  pub backoff_base_ms : ℤ
  pub backoff_max_ms : ℤ

-- `RateConfig::default()`
abbrev pub default_config : RateConfig
default_config = record {
  rpm = 6;
  rpd = 2000;
  min_gap_ms = pos 3000;
  jitter_ms = pos 2000;
  concurrency = 1;
  breaker_threshold = 3;
  breaker_max_opens = 5;
  backoff_base_ms = pos 2000;
  backoff_max_ms = pos 300_000;
}

pub data Grant : Type 0 where
  allow : Grant
  wait : ℤ → Grant
  halt : String → Grant

pub record FailureOutcome : Type 0 where
  pub opened : Bool
  pub halted : Bool

-- What the limiter uses of `f64`.
pub record Floats : Type 1 where
  pub Float : Type 0
  pub of_int : ℤ → Float
  pub add : Float → Float → Float
  pub sub : Float → Float → Float
  pub mul : Float → Float → Float
  pub div : Float → Float → Float
  pub minimum : Float → Float → Float
  pub lt : Float → Float → Bool
  pub ceil_int : Float → ℤ

-- `as i64` of a `u64`
abbrev pub to_i64 : ℕ → ℤ
to_i64 n = if ltb n (2 ^ 63) then pos n else negsuc (2 ^ 64 - n - 1)

-- `rem_euclid` by a positive number.
abbrev pub rem_euclid : ℤ → ℕ → ℕ
rem_euclid (pos n) m = n % m
rem_euclid (negsuc n) m = m - 1 - n % m

abbrev pub positive : ℤ → ℕ
positive (pos n) = n
positive (negsuc n) = 0

-- The pacing gap before the grant that follows `grants` others.
unfoldable pub gap : RateConfig → ℕ → ℤ
gap config grants =
    if leb_ℤ config.jitter_ms (pos 0)
    then config.min_gap_ms
    else wrap_i64 (
        config.min_gap_ms
        +ℤ pos (
            rem_euclid (to_i64 (bit_xor ((grants * 2_654_435_761) % 2 ^ 64) 0x9E37_79B9))
              (positive config.jitter_ms + 1)))

-- `backoff_base_ms.saturating_mul(1 << shift).min(backoff_max_ms)` after `opens` openings.
unfoldable pub backoff : RateConfig → ℕ → ℤ
backoff config opens =
    min_ℤ (sat_mul config.backoff_base_ms (pos (2 ^ min (opens - 1) 20))) config.backoff_max_ms
