-- ===== src/RateLimit/Limiter/Caps.antt =====
-- The caps of the limiter: calls in flight, calls in a minute's window and calls in a day's window.
use tenon.Prelude.{
  ℕ, ◌≤◌, ◌<◌, max, String, Bool, ◌≡◌, ◌⊎◌, Option, none, some, List, [], ◌∷◌, arith, if_both,
}
use tenon.Prelude.Int.{ℤ, ltb_ℤ}
use tenon.RateLimit.{Grant, Floats}
use tenon.RateLimit.Limiter.{
  Limiter, started, refilled, day_rolled, minute_rolled, granted, paced, minute_checked,
  day_checked, unless_halted, try_acquire, release, opened, record_result, record_success,
}

-- A cap of 0 is no cap.
abbrev pub Within : ℕ → ℕ → Type 0
Within cap n = (cap ≡ 0) ⊎ (n ≤ cap)

abbrev Room : ℕ → ℕ → Type 0
Room cap n = (cap ≡ 0) ⊎ (n < cap)

-- A call on the limiter.
pub data Call : Type 0 where
  acquire : ℤ → Call
  release_one : Call
  result : ℤ → Bool → Call
  success : Call

module _ (fl : Floats) where
  pub record IsCapped (l : Limiter fl) : Type 0 where
    pub flying : l.in_flight ≤ max l.config.concurrency 1
    pub day : Within l.config.rpd l.day_count
    pub minute : Within l.config.rpm l.minute_count

  paced-IsCapped :
      (now : ℤ) (l : Limiter fl)
      → IsCapped l
      → Room l.config.rpd l.day_count
      → Room l.config.rpm l.minute_count
      → IsCapped (paced fl now l).1
  unfolding paced granted
  paced-IsCapped now l c day minute = ground arith

  minute_checked-IsCapped :
      (now : ℤ) (l : Limiter fl)
      → IsCapped l
      → Room l.config.rpd l.day_count
      → IsCapped (minute_checked fl now l).1
  unfolding minute_checked
  minute_checked-IsCapped now l c day = ground (arith, paced-IsCapped now l c day)

  minute_rolled-IsCapped :
      (now : ℤ) (l : Limiter fl)
      → IsCapped l
      → Room l.config.rpd l.day_count
      → IsCapped (minute_rolled fl now l)
        × Room (minute_rolled fl now l).config.rpd (minute_rolled fl now l).day_count
  unfolding minute_rolled
  minute_rolled-IsCapped now l c day = ground arith

  day_checked-IsCapped : (now : ℤ) (l : Limiter fl) → IsCapped l → IsCapped (day_checked fl now l).1
  unfolding day_checked
  day_checked-IsCapped now l c =
      ground (
        arith,
        minute_rolled-IsCapped now l c,
        minute_checked-IsCapped now (minute_rolled fl now l),
      )

  prepared-IsCapped :
      (now : ℤ) (l : Limiter fl)
      → IsCapped l
      → IsCapped (day_rolled fl now (refilled fl now (started fl now l)))
  unfolding day_rolled refilled started
  prepared-IsCapped now l c = ground arith

  unless_halted-IsCapped :
      (now : ℤ) (l : Limiter fl) (o : Option String)
      → IsCapped l
      → IsCapped (unless_halted fl now l o).1
  unless_halted-IsCapped now l (some reason) c = c
  unless_halted-IsCapped now l none c =
      if_both (λ (p : Grant × Limiter fl). IsCapped p.1) (ltb_ℤ now l.open_until) _ _ c
        (day_checked-IsCapped now _ (prepared-IsCapped now l c))

  pub try_acquire-IsCapped :
      (now : ℤ) (l : Limiter fl) → IsCapped l → IsCapped (try_acquire fl now l).1
  unfolding try_acquire
  try_acquire-IsCapped now l c = unless_halted-IsCapped now l l.halted c

  unfoldable pub after : Limiter fl → Call → Limiter fl
  after l (acquire now) = (try_acquire fl now l).1
  after l release_one = release fl l
  after l (result now limited) = (record_result fl now limited l).1
  after l success = record_success fl l

  unfoldable pub run : Limiter fl → List Call → Limiter fl
  unfolding after
  run l [] = l
  run l (c ∷ calls) = run (after l c) calls

  record_result-IsCapped :
      (now : ℤ) (limited : Bool) (l : Limiter fl)
      → IsCapped l
      → IsCapped (record_result fl now limited l).1
  unfolding record_result opened
  record_result-IsCapped now limited l c = ground arith

  after-IsCapped : (l : Limiter fl) (call : Call) → IsCapped l → IsCapped (after l call)
  unfolding after release record_success
  after-IsCapped l (acquire now) c = try_acquire-IsCapped now l c
  after-IsCapped l release_one c = ground arith
  after-IsCapped l (result now limited) c = record_result-IsCapped now limited l c
  after-IsCapped l success c = ground arith

  pub run-IsCapped : (calls : List Call) (l : Limiter fl) → IsCapped l → IsCapped (run l calls)
  unfolding run
  run-IsCapped [] l c = c
  run-IsCapped (call ∷ calls) l c = run-IsCapped calls (after l call) (after-IsCapped l call c)
