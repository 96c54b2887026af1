-- ===== src/RateLimit/Limiter/Breaker.antt =====
-- The circuit breaker (`record` and `record_success` of rs/base/src/ratelimit.rs).
use tenon.Prelude.{
  ℕ, suc, ◌+◌, ◌*◌, ◌<◌, max, String, Bool, true, false, ◌≡◌, Option, none, some, List, [], ◌∷◌,
  subst, length, sym, ltb, arith, if_split,
}
use tenon.Prelude.Int.{ℤ}
use tenon.RateLimit.{RateConfig, Floats, FailureOutcome}
use tenon.RateLimit.Limiter.{Limiter, new, opened, halts, record_result}

abbrev pub is_some : Option String → Bool
is_some none = false
is_some (some s) = true

abbrev pub threshold : RateConfig → ℕ
threshold config = max config.breaker_threshold 1

add_shift : (a b : ℕ) → a + (b + 1) ≡ suc a + b
add_shift a b = omega arith

zero_add : (a : ℕ) → a ≡ 0 + a
zero_add a = omega arith

add_zero : (a : ℕ) → a + 0 ≡ a
add_zero a = omega arith

module _ (fl : Floats) where
  -- Rate-limited failures in a row, at these times.
  unfoldable pub failures : Limiter fl → List ℤ → Limiter fl
  failures l [] = l
  failures l (now ∷ times) = failures (record_result fl now true l).1 times

  -- After `n` failures: the streak is below the threshold, the openings and the streak together
  -- count them all, and the limiter is halted when the openings reach their cap, not before.
  pub record Counted (l : Limiter fl) (n : ℕ) : Type 0 where
    pub streak : l.consecutive_fails < threshold l.config
    pub total : l.opens * threshold l.config + l.consecutive_fails ≡ n
    pub stop : is_some l.halted ≡ halts fl l.config l.opens

  counted_open :
      (t o s n : ℕ) → s < t → o * t + s ≡ n → ltb (s + 1) t ≡ false → (o + 1) * t + 0 ≡ n + 1
  counted_open t o s n lo e stop = grind arith

  opened-Counted :
      (now : ℤ) (l : Limiter fl) (n : ℕ)
      → Counted l n
      → ltb (l.consecutive_fails + 1) (threshold l.config) ≡ false
      → Counted (opened fl now l).1 (n + 1)
  unfolding opened
  opened-Counted now l n c full = record {
    streak = ground arith;
    total = counted_open (threshold l.config) l.opens l.consecutive_fails n c.streak c.total full;
    stop =
        let before = c.stop in
        if_split (λ o. is_some o ≡ halts fl l.config (l.opens + 1))
          (halts fl l.config (l.opens + 1)) _ _ (λ on. sym on) (λ off. ground (arith, before));
  }

  one_failure :
      (now : ℤ) (l : Limiter fl) (n : ℕ)
      → Counted l n
      → Counted (record_result fl now true l).1 (n + 1)
  unfolding record_result
  one_failure now l n c =
      if_split (λ (p : FailureOutcome × Limiter fl). Counted p.1 (n + 1))
        (ltb (l.consecutive_fails + 1) (max l.config.breaker_threshold 1)) _ _
        (λ more. record { streak = ground arith; total = ground (arith, c.total); stop = c.stop })
        (λ full. opened-Counted now l n c full)

  failures-Counted :
      (times : List ℤ) (l : Limiter fl) (n : ℕ)
      → Counted l n
      → Counted (failures l times) (length times + n)
  unfolding failures
  failures-Counted [] l n c = subst (Counted l) (zero_add n) c
  failures-Counted (now ∷ times) l n c =
      subst (Counted (failures (record_result fl now true l).1 times)) (add_shift (length times) n)
        (failures-Counted times (record_result fl now true l).1 (n + 1) (one_failure now l n c))

  pub breaker-counts :
      (config : RateConfig) (times : List ℤ)
      → Counted (failures (new fl config) times) (length times)
  breaker-counts config times =
      subst (Counted (failures (new fl config) times)) (add_zero (length times)) (
        failures-Counted times (new fl config) 0 (
          unfold new in record { streak = ground arith; total = omega arith; stop = ground arith }))
