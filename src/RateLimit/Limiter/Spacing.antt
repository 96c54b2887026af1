-- ===== src/RateLimit/Limiter/Spacing.antt =====
-- How far apart the grants of a run of calls are.
use tenon.Prelude.{◌^◌, ◌-◌, sym, Bool, ◌≡◌, List, [], ◌∷◌, arith, subst, ap, ◌∙◌}
use tenon.Prelude.Int.{ℤ, pos, negsuc, ◌+ℤ◌, ◌-ℤ◌, ◌≤ℤ◌, int_laws, wrap_i64, wrap_of_InI64, InI64}
use tenon.RateLimit.{gap, RateConfig, Grant, allow, wait, halt, Floats}
use tenon.RateLimit.Limiter.{Limiter, try_acquire, release, opened, record_result, record_success}
use tenon.RateLimit.Limiter.Caps.{Call, acquire, release_one, result, success}
use tenon.RateLimit.Limiter.Pace.{GapFits, Effect, min_gap-le-gap, try_acquire_effect}

module _ (fl : Floats) where
  -- The times at which a run of calls is allowed.
  unfoldable pub allowed_at : ℤ → Grant → List ℤ → List ℤ
  allowed_at now allow rest = now ∷ rest
  allowed_at now (wait ms) rest = rest
  allowed_at now (halt reason) rest = rest

  unfoldable pub grant_times : Limiter fl → List Call → List ℤ
  unfolding allowed_at
  grant_times l [] = []
  grant_times l (acquire now ∷ calls) =
      let (g, l') = try_acquire fl now l in allowed_at now g (grant_times l' calls)
  grant_times l (release_one ∷ calls) = grant_times (release fl l) calls
  grant_times l (result now limited ∷ calls) = grant_times (record_result fl now limited l).1 calls
  grant_times l (success ∷ calls) = grant_times (record_success fl l) calls

  -- Each time is at least `by` after the one before it.
  abbrev pub Spaced : ℤ → ℤ → List ℤ → Type 0
  Spaced by before [] = Unit
  Spaced by before (t ∷ ts) = (before +ℤ by ≤ℤ t) × Spaced by t ts

  record-pace :
      (now : ℤ) (limited : Bool) (l : Limiter fl)
      → ((record_result fl now limited l).1.config ≡ l.config)
        × ((record_result fl now limited l).1.last_grant ≡ l.last_grant)
  unfolding record_result opened
  record-pace now limited l = ground arith

  -- A time of the clock, or the start's `i64::MIN / 4`: two such times are a difference of `i64`.
  abbrev pub IsTime : ℤ → Type 0
  IsTime t = (negsuc (2 ^ 61 - 1) ≤ℤ t) × (t ≤ℤ pos (2 ^ 62))

  abbrev pub Timed : List Call → Type 0
  Timed [] = Unit
  Timed (acquire now ∷ calls) = IsTime now × Timed calls
  Timed (call ∷ calls) = Timed calls

  spaced_by :
      (by last now wide : ℤ)
      → IsTime last
      → IsTime now
      → by ≤ℤ wide
      → wide ≤ℤ wrap_i64 (now -ℤ last)
      → last +ℤ by ≤ℤ now
  spaced_by by last now wide before at le spaced =
      let fits : InI64 (now -ℤ last) =
        (omega (int_laws, before, at), omega (int_laws, before, at)) in
      let is = subst (λ d. wide ≤ℤ d) (wrap_of_InI64 (now -ℤ last) fits) spaced in
      omega (int_laws, le, is)

  after_acquire :
      (now : ℤ) (config : RateConfig) (l : Limiter fl) (g : Grant) (l' : Limiter fl) (rest : List ℤ)
      → GapFits config
      → IsTime now
      → IsTime l.last_grant
      → l.config ≡ config
      → Effect fl now l (g, l')
      → (l'.config ≡ config → IsTime l'.last_grant → Spaced config.min_gap_ms l'.last_grant rest)
      → Spaced config.min_gap_ms l.last_grant (allowed_at now g rest)
  unfolding allowed_at
  after_acquire now config l allow l' rest fits at before e eff ih =
      let wide = min_gap-le-gap config l.grants fits in
      let spaced =
        subst (λ (c : RateConfig). gap c l.grants ≤ℤ wrap_i64 (now -ℤ l.last_grant)) e eff.spaced in
      (
        spaced_by config.min_gap_ms l.last_grant now (gap config l.grants) before at wide spaced,
        subst (λ t. Spaced config.min_gap_ms t rest) eff.last_grant
            (ih (eff.config ∙ e) (subst IsTime (sym eff.last_grant) at)),
      )
  after_acquire now config l (wait ms) l' rest fits at before e eff ih =
      subst (λ t. Spaced config.min_gap_ms t rest) eff.last_grant
        (ih (eff.config ∙ e) (subst IsTime (sym eff.last_grant) before))
  after_acquire now config l (halt reason) l' rest fits at before e eff ih =
      subst (λ (x : Limiter fl). Spaced config.min_gap_ms x.last_grant rest) eff.1
        (ih (ap (λ (x : Limiter fl). x.config) eff.1 ∙ e)
          (subst (λ (x : Limiter fl). IsTime x.last_grant) (sym eff.1) before))

  -- If the sums of the gap stay in the range of `i64`, and the calls come at times from `i64::MIN / 4`
  -- to 2^62: in any run of calls two grants in a row are at least the minimum gap apart, and the
  -- first is that far from the grant before the run: no sequence of releases, results and successes
  -- between them shortens it.
  pub grant_times-Spaced :
      (calls : List Call) (config : RateConfig) (l : Limiter fl)
      → GapFits config
      → Timed calls
      → IsTime l.last_grant
      → l.config ≡ config
      → Spaced config.min_gap_ms l.last_grant (grant_times l calls)
  unfolding grant_times release record_success
  grant_times-Spaced [] config l fits timed before e = tt
  grant_times-Spaced (acquire now ∷ calls) config l fits timed before e =
      let (g, l') = try_acquire fl now l in
      after_acquire now config l g l' (grant_times l' calls) fits timed.0 before e
        (try_acquire_effect fl now l)
        (λ e' before'. grant_times-Spaced calls config l' fits timed.1 before' e')
  grant_times-Spaced (release_one ∷ calls) config l fits timed before e =
      grant_times-Spaced calls config _ fits timed before e
  grant_times-Spaced (result now limited ∷ calls) config l fits timed before e =
      let (same, last) = record-pace now limited l in
      subst (λ t. Spaced config.min_gap_ms t (grant_times (record_result fl now limited l).1 calls))
        last
        (grant_times-Spaced calls config _ fits timed (subst IsTime (sym last) before) (same ∙ e))
  grant_times-Spaced (success ∷ calls) config l fits timed before e =
      grant_times-Spaced calls config _ fits timed before e
