-- ===== src/RateLimit/Limiter/Grants.antt =====
-- How many calls a limiter (rs/base/src/ratelimit.rs) lets through: at once, and in one window.
use tenon.Prelude.{
  ℕ, ◌+◌, ◌≤◌, max, String, Bool, false, ◌≡◌, refl, sym, ap, ◌∙◌, subst, Option, none, some, List,
  [], ◌∷◌, arith, if_both, leb, ltb, ◌&&◌,
}
use tenon.Prelude.Int.{ℤ, pos, ◌-ℤ◌, ◌<ℤ◌, leb_ℤ, ltb_ℤ, wrap_i64}
use tenon.RateLimit.{RateConfig, Grant, allow, wait, halt, Floats, day_ms, minute_ms, gap}
use tenon.RateLimit.Limiter.{
  Limiter, is_zero, started, refilled, day_rolled, minute_rolled, granted, paced, minute_checked,
  day_checked, unless_halted, try_acquire, release, opened, record_result, record_success,
}
use tenon.RateLimit.Limiter.Caps.{
  Call, acquire, release_one, result, success, Within, IsCapped, after, run, run-IsCapped,
}
use tenon.RateLimit.Limiter.Pace.{Effect, try_acquire_effect}

-- The two windows in which calls are counted.
pub data Window : Type 0 where
  minute day : Window

abbrev pub length_of : Window → ℤ
length_of minute = minute_ms
length_of day = day_ms

abbrev pub cap_of : Window → RateConfig → ℕ
cap_of minute config = config.rpm
cap_of day config = config.rpd

abbrev pub releases : List Call → ℕ
releases [] = 0
releases (release_one ∷ calls) = releases calls + 1
releases (call ∷ calls) = releases calls

-- Every call of `try_acquire` comes in the window that began at `start`, and after the epoch.
abbrev pub AllIn : Window → ℤ → List Call → Type 0
AllIn w start [] = Unit
AllIn w start (acquire now ∷ calls) =
    (pos 0 <ℤ now) × (leb_ℤ (length_of w) (wrap_i64 (now -ℤ start)) ≡ false) × AllIn w start calls
AllIn w start (call ∷ calls) = AllIn w start calls

module _ (fl : Floats) where
  open fl use {of_int, lt}

  abbrev pub count_of : Window → Limiter fl → ℕ
  count_of minute l = l.minute_count
  count_of day l = l.day_count

  abbrev pub start_of : Window → Limiter fl → ℤ
  start_of minute l = l.minute_start
  start_of day l = l.day_start

  abbrev one_if : Grant → ℕ → ℕ
  one_if allow n = n + 1
  one_if (wait ms) n = n
  one_if (halt reason) n = n

  -- The calls that a run lets through.
  unfoldable pub allowed_in : Limiter fl → List Call → ℕ
  unfolding after
  allowed_in l [] = 0
  allowed_in l (acquire now ∷ calls) =
      let (g, l') = try_acquire fl now l in one_if g (allowed_in l' calls)
  allowed_in l (release_one ∷ calls) = allowed_in (after fl l release_one) calls
  allowed_in l (result now limited ∷ calls) = allowed_in (after fl l (result now limited)) calls
  allowed_in l (success ∷ calls) = allowed_in (after fl l success) calls

  record-flying :
      (now : ℤ) (limited : Bool) (l : Limiter fl)
      → ((record_result fl now limited l).1.config ≡ l.config)
        × ((record_result fl now limited l).1.in_flight ≡ l.in_flight)
  unfolding record_result opened
  record-flying now limited l = ground arith

  -- What is let through is in flight at the end or has been released, and the limits stay.
  Balanced : Limiter fl → List Call → Type 0
  Balanced l calls =
      ((run fl l calls).config ≡ l.config)
      × (l.in_flight + allowed_in l calls ≤ (run fl l calls).in_flight + releases calls)

  flying_acquire :
      (now : ℤ) (l : Limiter fl) (calls : List Call) (g : Grant) (l' : Limiter fl)
      → Effect fl now l (g, l')
      → Balanced l' calls
      → ((run fl l' calls).config ≡ l.config)
        × (l.in_flight + one_if g (allowed_in l' calls)
            ≤ (run fl l' calls).in_flight + releases calls)
  unfolding Balanced
  flying_acquire now l calls allow l' eff ih =
      let more = eff.in_flight in (ih.0 ∙ eff.config, omega (arith, more, ih.1))
  flying_acquire now l calls (wait ms) l' eff ih =
      let same = eff.in_flight in (ih.0 ∙ eff.config, omega (arith, same, ih.1))
  flying_acquire now l calls (halt reason) l' eff ih =
      let same = ap (λ (x : Limiter fl). x.in_flight) eff.1 in
      (ih.0 ∙ ap (λ (x : Limiter fl). x.config) eff.1, omega (arith, same, ih.1))

  run-Balanced : (calls : List Call) (l : Limiter fl) → Balanced l calls
  unfolding Balanced run allowed_in after release record_success
  run-Balanced [] l = (refl, omega arith)
  run-Balanced (acquire now ∷ calls) l =
      let (g, l') = try_acquire fl now l in
      flying_acquire now l calls g l' (try_acquire_effect fl now l) (run-Balanced calls l')
  run-Balanced (release_one ∷ calls) l =
      let ih = run-Balanced calls (release fl l) in (ih.0, omega (arith, ih.1))
  run-Balanced (result now limited ∷ calls) l =
      let ih = run-Balanced calls (record_result fl now limited l).1 in
      let same = record-flying now limited l in
      let flying = same.1 in (ih.0 ∙ same.0, omega (arith, flying, ih.1))
  run-Balanced (success ∷ calls) l = run-Balanced calls (record_success fl l)

  -- From a limiter that is within its caps, whatever calls are made at whatever times: those that are
  -- let through are, with the ones in flight before, at most `concurrency` (or 1) more than the
  -- releases.
  pub allowed_at_once :
      (calls : List Call) (l : Limiter fl)
      → IsCapped fl l
      → l.in_flight + allowed_in l calls ≤ max l.config.concurrency 1 + releases calls
  unfolding Balanced
  allowed_at_once calls l capped =
      let (same, balance) = run-Balanced calls l in
      let flying = (run-IsCapped fl calls l capped).flying in
      let limit = ap (λ (c : RateConfig). max c.concurrency 1) same in
      omega (arith, balance, flying, limit)

  -- What a call keeps of the window `w`, if it does not count: its start, its count, the limits, and
  -- that the limiter has started.
  pub record Kin (w : Window) (a b : Limiter fl) : Type 0 where
    pub config : b.config ≡ a.config
    pub count : count_of w b ≡ count_of w a
    pub begun : start_of w b ≡ start_of w a
    pub going : is_zero b.last_refill ≡ false

  pub record Grown (w : Window) (a b : Limiter fl) : Type 0 where
    pub config : b.config ≡ a.config
    pub count : count_of w b ≡ count_of w a + 1
    pub begun : start_of w b ≡ start_of w a
    pub going : is_zero b.last_refill ≡ false

  Counts : Window → Limiter fl → Grant × Limiter fl → Type 0
  Counts w a (allow, b) = Grown w a b
  Counts w a (wait ms, b) = Kin w a b
  Counts w a (halt reason, b) = Kin w a b

  waits :
      (w : Window) (a : Limiter fl) (ms : ℤ) (b : Limiter fl) → Kin w a b → Counts w a (wait ms, b)
  unfolding Counts
  waits w a ms b k = k

  grants_one : (w : Window) (a b : Limiter fl) → Grown w a b → Counts w a (allow, b)
  unfolding Counts
  grants_one w a b g = g

  halts_kin :
      (w : Window) (a : Limiter fl) (s : String) (b : Limiter fl)
      → Kin w a b
      → Counts w a (halt s, b)
  unfolding Counts
  halts_kin w a s b k = k

  granted-Grown :
      (w : Window) (now : ℤ) (a l : Limiter fl) → Kin w a l → Grown w a (granted fl now l)
  unfolding granted
  granted-Grown minute now a l k = ground (arith, k.config, k.count, k.begun, k.going)
  granted-Grown day now a l k = ground (arith, k.config, k.count, k.begun, k.going)

  paced-Counts : (w : Window) (now : ℤ) (a l : Limiter fl) → Kin w a l → Counts w a (paced fl now l)
  unfolding paced
  paced-Counts w now a l k =
      if_both (Counts w a) (leb (max l.config.concurrency 1) l.in_flight) _ _ (waits w a _ l k) (
        if_both (Counts w a) (ltb_ℤ (wrap_i64 (now -ℤ l.last_grant)) (gap l.config l.grants)) _ _
          (waits w a _ l k)
          (if_both (Counts w a) (lt l.tokens (of_int (pos 1))) _ _ (waits w a _ l k)
            (grants_one w a (granted fl now l) (granted-Grown w now a l k))))

  minute_checked-Counts :
      (w : Window) (now : ℤ) (a l : Limiter fl) → Kin w a l → Counts w a (minute_checked fl now l)
  unfolding minute_checked
  minute_checked-Counts w now a l k =
      if_both (Counts w a) (ltb 0 l.config.rpm && leb l.config.rpm l.minute_count) _ _
        (waits w a _ l k) (paced-Counts w now a l k)

  abbrev InWindow : Window → ℤ → Limiter fl → Type 0
  InWindow w now l = leb_ℤ (length_of w) (wrap_i64 (now -ℤ start_of w l)) ≡ false

  minute_rolled-Kin :
      (w : Window) (now : ℤ) (a l : Limiter fl)
      → InWindow w now l
      → Kin w a l
      → Kin w a (minute_rolled fl now l)
  unfolding minute_rolled
  minute_rolled-Kin minute now a l within k = rw within k
  minute_rolled-Kin day now a l within k =
      if_both (Kin day a) (leb_ℤ minute_ms (wrap_i64 (now -ℤ l.minute_start))) _ _
        (record { config = k.config; count = k.count; begun = k.begun; going = k.going }) k

  day_rolled-Kin :
      (w : Window) (now : ℤ) (a l : Limiter fl)
      → InWindow w now l
      → Kin w a l
      → Kin w a (day_rolled fl now l)
  unfolding day_rolled
  day_rolled-Kin day now a l within k = rw within k
  day_rolled-Kin minute now a l within k =
      if_both (Kin minute a) (leb_ℤ day_ms (wrap_i64 (now -ℤ l.day_start))) _ _
        (record { config = k.config; count = k.count; begun = k.begun; going = k.going }) k

  not_zero : (now : ℤ) → pos 0 <ℤ now → is_zero now ≡ false
  not_zero now later = ground (arith, later)

  refilled-Kin :
      (w : Window) (now : ℤ) (a : Limiter fl) → pos 0 <ℤ now → Kin w a (refilled fl now a)
  unfolding refilled
  refilled-Kin minute now a later = record {
    config = refl;
    count = refl;
    begun = refl;
    going = not_zero now later;
  }
  refilled-Kin day now a later = record {
    config = refl;
    count = refl;
    begun = refl;
    going = not_zero now later;
  }

  prepared-Kin :
      (w : Window) (now : ℤ) (a : Limiter fl)
      → pos 0 <ℤ now
      → is_zero a.last_refill ≡ false
      → InWindow w now a
      → Kin w a (day_rolled fl now (refilled fl now (started fl now a)))
  unfolding started
  prepared-Kin w now a later going within =
      let k = refilled-Kin w now a later in
      let still : InWindow w now (refilled fl now a) =
        subst (λ s. leb_ℤ (length_of w) (wrap_i64 (now -ℤ s)) ≡ false) (sym k.begun) within in
      rw going (day_rolled-Kin w now a (refilled fl now a) still k)

  acquire-Counts :
      (w : Window) (now : ℤ) (a : Limiter fl) (o : Option String)
      → pos 0 <ℤ now
      → is_zero a.last_refill ≡ false
      → InWindow w now a
      → Counts w a (unless_halted fl now a o)
  unfolding day_checked
  acquire-Counts w now a (some reason) later going within =
      halts_kin w a reason a (record { config = refl; count = refl; begun = refl; going = going })
  acquire-Counts w now a none later going within =
      let l = day_rolled fl now (refilled fl now (started fl now a)) in
      let k = prepared-Kin w now a later going within in
      let still : InWindow w now l =
        subst (λ s. leb_ℤ (length_of w) (wrap_i64 (now -ℤ s)) ≡ false) (sym k.begun) within in
      let same : Kin w a a = record { config = refl; count = refl; begun = refl; going = going } in
      if_both (Counts w a) (ltb_ℤ now a.open_until) _ _ (waits w a _ a same) (
        if_both (Counts w a) (ltb 0 l.config.rpd && leb l.config.rpd l.day_count) _ _
          (waits w a _ l k)
          (minute_checked-Counts w now a (minute_rolled fl now l)
            (minute_rolled-Kin w now a l still k)))

  windowed :
      (w : Window) (now : ℤ) (a : Limiter fl) (calls : List Call) (g : Grant) (l' : Limiter fl)
      → Counts w a (g, l')
      → (count_of w (run fl l' calls) ≡ count_of w l' + allowed_in l' calls)
      → count_of w (run fl l' calls) ≡ count_of w a + one_if g (allowed_in l' calls)
  unfolding Counts
  windowed w now a calls allow l' c ih = let more = c.count in omega (arith, ih, more)
  windowed w now a calls (wait ms) l' c ih = let same = c.count in omega (arith, ih, same)
  windowed w now a calls (halt reason) l' c ih = let same = c.count in omega (arith, ih, same)

  goes_on :
      (w : Window) (a : Limiter fl) (g : Grant) (l' : Limiter fl)
      → Counts w a (g, l')
      → (is_zero l'.last_refill ≡ false) × (start_of w l' ≡ start_of w a)
  unfolding Counts
  goes_on w a allow l' c = (c.going, c.begun)
  goes_on w a (wait ms) l' c = (c.going, c.begun)
  goes_on w a (halt reason) l' c = (c.going, c.begun)

  result-Kin :
      (w : Window) (now : ℤ) (limited : Bool) (l : Limiter fl)
      → is_zero l.last_refill ≡ false
      → Kin w l (record_result fl now limited l).1
  unfolding record_result opened
  result-Kin minute now limited l going = ground (arith, going)
  result-Kin day now limited l going = ground (arith, going)

  run-counts :
      (w : Window) (calls : List Call) (l : Limiter fl)
      → is_zero l.last_refill ≡ false
      → AllIn w (start_of w l) calls
      → count_of w (run fl l calls) ≡ count_of w l + allowed_in l calls
  unfolding run allowed_in after release record_success try_acquire
  run-counts w [] l going within = omega arith
  run-counts w (acquire now ∷ calls) l going (later, at, within) =
      let (g, l') = try_acquire fl now l in
      let c : Counts w l (g, l') = acquire-Counts w now l l.halted later going at in
      let (going', begun) = goes_on w l g l' c in
      windowed w now l calls g l' c
        (run-counts w calls l' going' (subst (λ s. AllIn w s calls) (sym begun) within))
  run-counts minute (release_one ∷ calls) l going within = run-counts minute calls _ going within
  run-counts day (release_one ∷ calls) l going within = run-counts day calls _ going within
  run-counts w (result now limited ∷ calls) l going within =
      let k = result-Kin w now limited l going in
      let same = k.count in
      let ih =
        run-counts w calls (record_result fl now limited l).1 k.going
          (subst (λ s. AllIn w s calls) (sym k.begun) within) in
      omega (arith, ih, same)
  run-counts minute (success ∷ calls) l going within = run-counts minute calls _ going within
  run-counts day (success ∷ calls) l going within = run-counts day calls _ going within

  -- From a limiter that has started and is within its caps: of the calls that all come in the minute,
  -- or in the day, that is being counted, and after the epoch, those that are let through are,
  -- with the ones counted in it before, at most the cap of that window, if it is set.
  pub allowed-Within :
      (w : Window) (calls : List Call) (l : Limiter fl)
      → IsCapped fl l
      → is_zero l.last_refill ≡ false
      → AllIn w (start_of w l) calls
      → Within (cap_of w l.config) (count_of w l + allowed_in l calls)
  unfolding Balanced
  allowed-Within minute calls l capped going within =
      let limit = ap (λ (c : RateConfig). c.rpm) (run-Balanced calls l).0 in
      subst (λ n. Within l.config.rpm n) (run-counts minute calls l going within)
        (subst (λ c. Within c (run fl l calls).minute_count) limit
          (run-IsCapped fl calls l capped).minute)
  allowed-Within day calls l capped going within =
      let limit = ap (λ (c : RateConfig). c.rpd) (run-Balanced calls l).0 in
      subst (λ n. Within l.config.rpd n) (run-counts day calls l going within)
        (subst (λ c. Within c (run fl l calls).day_count) limit
          (run-IsCapped fl calls l capped).day)
