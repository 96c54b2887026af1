-- ===== src/RateLimit/Limiter.antt =====
-- The state of the limiter and its methods (rs/base/src/ratelimit.rs).
pub mod Caps
pub mod Grants
pub mod Pace
pub mod Spacing
pub mod Breaker
use tenon.Prelude.{
  ℕ, zero, suc, ◌+◌, ◌-◌, max, String, Bool, true, false, not, ◌&&◌, Option, none, some, leb, ltb,
  ◌==◌, ℕ_eq, if◌then◌else◌,
}
use tenon.Prelude.Int.{ℤ, pos, negsuc, ◌+ℤ◌, ◌-ℤ◌, leb_ℤ, ltb_ℤ, max_ℤ, wrap_i64}
use tenon.Text.{◌<>◌}
use tenon.Decimal.{decimal}
use tenon.RateLimit.{
  RateConfig, Grant, allow, wait, halt, FailureOutcome, Floats, day_ms, minute_ms, gap, backoff,
}

-- A failure that neither opened nor halted anything.
abbrev pub no_outcome : FailureOutcome
no_outcome = record { opened = false; halted = false }

abbrev pub is_zero : ℤ → Bool
is_zero (pos n) = n == 0
is_zero (negsuc n) = false

module _ (fl : Floats) where
  open fl use {Float, of_int, add, sub, mul, div, minimum, lt, ceil_int}

  pub record Limiter : Type 0 where
    pub config : RateConfig
    pub tokens : Float
    pub last_refill : ℤ
    pub last_grant : ℤ
    pub minute_start : ℤ
    pub minute_count : ℕ
    pub day_start : ℤ
    pub day_count : ℕ
    pub in_flight : ℕ
    pub grants : ℕ
    pub consecutive_fails : ℕ
    pub opens : ℕ
    pub open_until : ℤ
    pub halted : Option String

  -- `rpm.max(1) as f64`
  abbrev capacity : RateConfig → Float
  capacity config = of_int (pos (max config.rpm 1))

  unfoldable pub new : RateConfig → Limiter
  new config = record {
    config = config;
    tokens = capacity config;
    last_refill = pos 0;
    last_grant = negsuc 2_305_843_009_213_693_951;
    minute_start = pos 0;
    minute_count = 0;
    day_start = pos 0;
    day_count = 0;
    in_flight = 0;
    grants = 0;
    consecutive_fails = 0;
    opens = 0;
    open_until = pos 0;
    halted = none;
  }

  -- The stages of `try_acquire`: the windows start with the first call, the bucket fills, and each
  -- window that has run out starts again.
  unfoldable pub started : ℤ → Limiter → Limiter
  started now l =
      if is_zero l.last_refill
      then record l { last_refill = now; day_start = now; minute_start = now }
      else l

  abbrev pub rate_per_ms : RateConfig → Float
  rate_per_ms config = div (capacity config) (of_int (pos 60_000))

  unfoldable pub refilled : ℤ → Limiter → Limiter
  refilled now l = record l {
    tokens =
        minimum
          (add l.tokens
            (mul (of_int (max_ℤ (wrap_i64 (now -ℤ l.last_refill)) (pos 0))) (rate_per_ms l.config)))
          (capacity l.config);
    last_refill = now;
  }

  unfoldable pub day_rolled : ℤ → Limiter → Limiter
  day_rolled now l =
      if leb_ℤ day_ms (wrap_i64 (now -ℤ l.day_start))
      then record l { day_start = now; day_count = 0 }
      else l

  unfoldable pub minute_rolled : ℤ → Limiter → Limiter
  minute_rolled now l =
      if leb_ℤ minute_ms (wrap_i64 (now -ℤ l.minute_start))
      then record l { minute_start = now; minute_count = 0 }
      else l

  unfoldable pub granted : ℤ → Limiter → Limiter
  granted now l = record l {
    tokens = sub l.tokens (of_int (pos 1));
    last_grant = now;
    day_count = l.day_count + 1;
    minute_count = l.minute_count + 1;
    in_flight = l.in_flight + 1;
    grants = l.grants + 1;
  }

  -- From the test of the calls in flight on.
  unfoldable pub paced : ℤ → Limiter → Grant × Limiter
  paced now l =
      if leb (max l.config.concurrency 1) l.in_flight
      then (wait (max_ℤ l.config.min_gap_ms (pos 1)), l)
      else if ltb_ℤ (wrap_i64 (now -ℤ l.last_grant)) (gap l.config l.grants)
      then (wait (wrap_i64 (gap l.config l.grants -ℤ wrap_i64 (now -ℤ l.last_grant))), l)
      else if lt l.tokens (of_int (pos 1))
      then (
        wait
            (max_ℤ (ceil_int (div (sub (of_int (pos 1)) l.tokens) (rate_per_ms l.config))) (pos 1)),
        l,
      )
      else (allow, granted now l)

  -- From the test of the minute's count on.
  unfoldable pub minute_checked : ℤ → Limiter → Grant × Limiter
  minute_checked now l =
      if ltb 0 l.config.rpm && leb l.config.rpm l.minute_count
      then (wait (max_ℤ (wrap_i64 (l.minute_start +ℤ minute_ms -ℤ now)) (pos 1)), l)
      else paced now l

  -- From the test of the day's count on.
  unfoldable pub day_checked : ℤ → Limiter → Grant × Limiter
  day_checked now l =
      if ltb 0 l.config.rpd && leb l.config.rpd l.day_count
      then (wait (max_ℤ (wrap_i64 (l.day_start +ℤ day_ms -ℤ now)) (pos 1)), l)
      else minute_checked now (minute_rolled now l)

  abbrev unless_halted : ℤ → Limiter → Option String → Grant × Limiter
  unless_halted now l (some reason) = (halt reason, l)
  unless_halted now l none =
      if ltb_ℤ now l.open_until
      then (wait (wrap_i64 (l.open_until -ℤ now)), l)
      else day_checked now (day_rolled now (refilled now (started now l)))

  unfoldable pub try_acquire : ℤ → Limiter → Grant × Limiter
  try_acquire now l = unless_halted now l l.halted

  unfoldable pub release : Limiter → Limiter
  release l = record l { in_flight = l.in_flight - 1 }

  abbrev halt_reason : ℕ → String
  halt_reason opens =
      "rate-limit circuit breaker opened "
      <> decimal opens
      <> " times: the account is being throttled"

  abbrev halts : RateConfig → ℕ → Bool
  halts config opens = leb (max config.breaker_max_opens 1) opens

  -- The breaker opens.
  unfoldable pub opened : ℤ → Limiter → FailureOutcome × Limiter
  opened now l =
      let opens = l.opens + 1 in
      (
        record { opened = true; halted = halts l.config opens },
        record l {
          consecutive_fails = 0;
          opens = opens;
          open_until = wrap_i64 (now +ℤ backoff l.config opens);
          halted = if halts l.config opens then some (halt_reason opens) else l.halted;
        },
      )

  -- `record`
  unfoldable pub record_result : ℤ → Bool → Limiter → FailureOutcome × Limiter
  record_result now rate_limited l =
      if not rate_limited
      then (no_outcome, record l { consecutive_fails = 0 })
      else if ltb (l.consecutive_fails + 1) (max l.config.breaker_threshold 1)
      then (no_outcome, record l { consecutive_fails = l.consecutive_fails + 1 })
      else opened now l

  unfoldable pub record_success : Limiter → Limiter
  record_success l = record l { consecutive_fails = 0 }
