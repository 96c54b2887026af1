-- ===== src/RateLimit/Tests.antt =====
-- Runs of the limiter, with whole numbers in place of floats.
use tenon.Prelude.{◌/◌, true, refl, List, [], ◌∷◌, arith, ◌+◌, ◌≤◌, max}
use tenon.Prelude.Int.{ℤ, pos, ◌+ℤ◌, ◌-ℤ◌, sat_mul, min_ℤ, ltb_ℤ}
use tenon.RateLimit.{default_config, Floats}
use tenon.RateLimit.Limiter.{Limiter, new}
use tenon.RateLimit.Limiter.Caps.{IsCapped, Within, Call, acquire, release_one, result}
use tenon.RateLimit.Limiter.Grants.{
  minute, cap_of, count_of, allowed_in, releases, allowed_at_once, allowed-Within,
}
use tenon.RateLimit.Limiter.Spacing.{Spaced, grant_times, grant_times-Spaced}
use tenon.RateLimit.Limiter.Breaker.{Counted, failures, breaker-counts}

abbrev whole_div : ℤ → ℤ → ℤ
whole_div (pos a) (pos b) = pos (a / b)
whole_div a b = pos 0

abbrev whole : Floats
whole = record {
  Float = ℤ;
  of_int = λ n. n;
  add = λ a b. a +ℤ b;
  sub = λ a b. a -ℤ b;
  mul = sat_mul;
  div = whole_div;
  minimum = min_ℤ;
  lt = ltb_ℤ;
  ceil_int = λ n. n;
}

abbrev calls : List Call
calls =
    acquire (pos 100)
    ∷ acquire (pos 200)
    ∷ release_one
    ∷ result (pos 300) true
    ∷ acquire (pos 9000)
    ∷ []

-- A limiter after its first call, which began a minute and a day and is in flight.
abbrev begun : Limiter whole
begun = record (new whole default_config) {
  last_refill = pos 100;
  last_grant = pos 100;
  minute_start = pos 100;
  minute_count = 1;
  day_start = pos 100;
  day_count = 1;
  in_flight = 1;
  grants = 1;
}

abbrev more_calls : List Call
more_calls = release_one ∷ acquire (pos 9000) ∷ acquire (pos 9100) ∷ []

begun-IsCapped : IsCapped whole begun
unfolding new
begun-IsCapped = ground arith

at_once_example :
    begun.in_flight + allowed_in whole begun more_calls
    ≤ max begun.config.concurrency 1 + releases more_calls
at_once_example = allowed_at_once whole more_calls begun begun-IsCapped

in_window_example :
    Within
      (cap_of minute begun.config)
      (count_of whole minute begun + allowed_in whole begun more_calls)
unfolding ◌-ℤ◌
in_window_example =
    allowed-Within whole minute more_calls begun begun-IsCapped refl
      (omega arith, refl, (omega arith, refl, tt))

spaced_example :
    Spaced whole
      (pos 3000)
      (new whole default_config).last_grant
      (grant_times whole (new whole default_config) calls)
unfolding new
spaced_example =
    grant_times-Spaced whole calls default_config (new whole default_config)
      (omega arith, unfold ◌+ℤ◌ in omega arith)
      ((omega arith, omega arith), ((omega arith, omega arith), ((omega arith, omega arith), tt)))
      (omega arith, omega arith) refl

counted_example :
    Counted whole (failures whole (new whole default_config) (pos 1 ∷ pos 2 ∷ pos 3 ∷ pos 4 ∷ [])) 4
counted_example = breaker-counts whole default_config (pos 1 ∷ pos 2 ∷ pos 3 ∷ pos 4 ∷ [])
