-- ===== src/RateLimit/Limiter/Pace.antt =====
-- What one `try_acquire` does on each of its verdicts.
use tenon.Prelude.{
  ℕ, ◌+◌, ◌<◌, max, String, false, ◌&&◌, ◌≡◌, refl, Option, none, some, leb, ltb, arith, if_both,
  if_split, ◌≤◌,
}
use tenon.Prelude.Int.{
  ℤ, pos, ◌+ℤ◌, ◌-ℤ◌, ◌≤ℤ◌, leb_ℤ, ltb_ℤ, max_ℤ, int_laws, le_of_ltb_ℤ, negsuc, wrap_i64,
  wrap_of_InI64, InI64, i64_min, i64_max,
}
use native.Mathlib.Nat.{mod-lt}
use tenon.RateLimit.{
  positive, rem_euclid, RateConfig, Grant, allow, wait, halt, Floats, day_ms, minute_ms, gap,
}
use tenon.RateLimit.Limiter.{
  Limiter, started, refilled, day_rolled, minute_rolled, granted, rate_per_ms, paced,
  minute_checked, day_checked, unless_halted, try_acquire,
}

-- The gap's sums stay in the range of `i64`.
abbrev pub GapFits : RateConfig → Type 0
GapFits config =
    (i64_min ≤ℤ config.min_gap_ms)
    × (config.min_gap_ms +ℤ pos (positive config.jitter_ms) ≤ℤ i64_max)

rem_euclid_le : (a : ℤ) (m : ℕ) → rem_euclid a (m + 1) ≤ m
rem_euclid_le (pos n) m = let below = mod-lt n {m = m + 1} (omega arith) in omega (arith, below)
rem_euclid_le (negsuc n) m = omega arith

wrapped_le :
    (least : ℤ) (more most : ℕ)
    → i64_min ≤ℤ least
    → least +ℤ pos most ≤ℤ i64_max
    → more ≤ most
    → least ≤ℤ wrap_i64 (least +ℤ pos more)
wrapped_le least more most low high le =
    let fits : InI64 (least +ℤ pos more) = (omega (int_laws, low), omega (int_laws, high, le)) in
    rw (wrap_of_InI64 (least +ℤ pos more) fits) (omega int_laws)

-- The gap is at least the fixed minimum.
pub min_gap-le-gap :
    (config : RateConfig) (grants : ℕ) → GapFits config → config.min_gap_ms ≤ℤ gap config grants
unfolding gap
min_gap-le-gap config grants (low, high) =
    if_both (λ (g : ℤ). config.min_gap_ms ≤ℤ g) (leb_ℤ config.jitter_ms (pos 0)) _ _ (omega arith)
      (wrapped_le config.min_gap_ms _ (positive config.jitter_ms) low high
        (rem_euclid_le _ (positive config.jitter_ms)))

module _ (fl : Floats) where
  open fl use {of_int, sub, div, ceil_int, lt}

  -- The fields that pace the grants.
  pub record SamePace (a b : Limiter fl) : Type 0 where
    pub config : b.config ≡ a.config
    pub in_flight : b.in_flight ≡ a.in_flight
    pub grants : b.grants ≡ a.grants
    pub last_grant : b.last_grant ≡ a.last_grant
    pub open_until : b.open_until ≡ a.open_until
    pub halted : b.halted ≡ a.halted
    pub opens : b.opens ≡ a.opens

  pub record Allowed (now : ℤ) (a b : Limiter fl) : Type 0 where
    pub running : a.halted ≡ none
    pub closed : a.open_until ≤ℤ now
    pub room : a.in_flight < max a.config.concurrency 1
    pub spaced : gap a.config a.grants ≤ℤ wrap_i64 (now -ℤ a.last_grant)
    pub config : b.config ≡ a.config
    pub in_flight : b.in_flight ≡ a.in_flight + 1
    pub grants : b.grants ≡ a.grants + 1
    pub last_grant : b.last_grant ≡ now

  -- What each verdict means for the states before and after.
  abbrev pub Effect : ℤ → Limiter fl → Grant × Limiter fl → Type 0
  Effect now a (allow, b) = Allowed now a b
  Effect now a (wait ms, b) = SamePace a b
  Effect now a (halt reason, b) = (a.halted ≡ some reason) × (b ≡ a)

  allowed :
      (now : ℤ) (a l : Limiter fl)
      → SamePace a l
      → a.halted ≡ none
      → a.open_until ≤ℤ now
      → leb (max l.config.concurrency 1) l.in_flight ≡ false
      → gap l.config l.grants ≤ℤ wrap_i64 (now -ℤ l.last_grant)
      → Allowed now a (granted fl now l)
  unfolding granted
  allowed now a l same running closed room spaced = record {
    running = running;
    closed = closed;
    room = ground arith;
    spaced = rw (← same.config, ← same.grants, ← same.last_grant) spaced;
    config = same.config;
    in_flight = ground arith;
    grants = ground arith;
    last_grant = refl;
  }

  rolled : (now : ℤ) (a l : Limiter fl) → SamePace a l → SamePace a (minute_rolled fl now l)
  unfolding minute_rolled
  rolled now a l same = ground arith

  paced-Effect :
      (now : ℤ) (a l : Limiter fl)
      → SamePace a l
      → a.halted ≡ none
      → a.open_until ≤ℤ now
      → Effect now a (paced fl now l)
  unfolding paced
  paced-Effect now a l same running closed =
      if_split (Effect now a) (leb (max l.config.concurrency 1) l.in_flight) _ _ (λ full. same)
        (λ room.
          if_split (Effect now a) (ltb_ℤ (wrap_i64 (now -ℤ l.last_grant)) (gap l.config l.grants)) _
            _ (λ soon. same)
            (λ spaced.
              if_both (Effect now a) (lt l.tokens (of_int (pos 1)))
                (
                  wait (
                      max_ℤ
                        (ceil_int (div (sub (of_int (pos 1)) l.tokens) (rate_per_ms fl l.config)))
                        (pos 1)),
                  l,
                )
                (allow, granted fl now l) same
                (allowed now a l same running closed room
                  (le_of_ltb_ℤ (wrap_i64 (now -ℤ l.last_grant)) (gap l.config l.grants) spaced))))

  minute_checked-Effect :
      (now : ℤ) (a l : Limiter fl)
      → SamePace a l
      → a.halted ≡ none
      → a.open_until ≤ℤ now
      → Effect now a (minute_checked fl now l)
  unfolding minute_checked
  minute_checked-Effect now a l same running closed =
      if_both (Effect now a) (ltb 0 l.config.rpm && leb l.config.rpm l.minute_count)
        (wait (max_ℤ (wrap_i64 (l.minute_start +ℤ minute_ms -ℤ now)) (pos 1)), l) (paced fl now l)
        same (paced-Effect now a l same running closed)

  day_checked-Effect :
      (now : ℤ) (a l : Limiter fl)
      → SamePace a l
      → a.halted ≡ none
      → a.open_until ≤ℤ now
      → Effect now a (day_checked fl now l)
  unfolding day_checked
  day_checked-Effect now a l same running closed =
      if_both (Effect now a) (ltb 0 l.config.rpd && leb l.config.rpd l.day_count)
        (wait (max_ℤ (wrap_i64 (l.day_start +ℤ day_ms -ℤ now)) (pos 1)), l)
        (minute_checked fl now (minute_rolled fl now l)) same
        (minute_checked-Effect now a (minute_rolled fl now l) (rolled now a l same) running closed)

  prepared :
      (now : ℤ) (a : Limiter fl)
      → SamePace a (day_rolled fl now (refilled fl now (started fl now a)))
  unfolding day_rolled refilled started
  prepared now a = ground arith

  SamePace-refl : (a : Limiter fl) → SamePace a a
  SamePace-refl a = ground arith

  unless_halted-Effect :
      (now : ℤ) (a : Limiter fl) (o : Option String)
      → a.halted ≡ o
      → Effect now a (unless_halted fl now a o)
  unless_halted-Effect now a (some reason) e = (e, refl)
  unless_halted-Effect now a none e =
      if_split (Effect now a) (ltb_ℤ now a.open_until) _ _ (λ held. SamePace-refl a)
        (λ closed.
          day_checked-Effect now a _ (prepared now a) e (le_of_ltb_ℤ now a.open_until closed))

  -- An `allow` is given only to a limiter that is not halted, whose breaker is closed, with room
  -- for a call in flight and at least the gap after the last grant, and it counts one call in
  -- flight and one grant at this time; a `wait` spends nothing; a `halt`
  -- gives the reason that is set and changes nothing.
  pub try_acquire_effect : (now : ℤ) (l : Limiter fl) → Effect now l (try_acquire fl now l)
  unfolding try_acquire
  try_acquire_effect now l = unless_halted-Effect now l l.halted refl
