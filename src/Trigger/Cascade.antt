-- ===== src/Trigger/Cascade.antt =====
-- What a chain of publishing rules can reach: each envelope of it fires a rule whose publication the
-- hub lets through.
use tenon.Prelude.{
  ℕ, ◌<◌, ◌-◌, ◌^◌, ◌%◌, suc, ◌+◌, ◌≤◌, String, Bool, ◌≡◌, ◌⊎◌, inl, inr, refl, subst, ◌∙◌, some,
  List, get_elem?, Result, ok, err, All-at, arith, if_both, is_empty,
}
use tenon.Prelude.Int.{ℤ}
use tenon.Json.{Value}
use tenon.Bus.Tags.{Tags}
use tenon.Bus.Envelope.{Envelope, normalize}
use tenon.Bus.Secret.{scan_envelope}
use tenon.Bus.Hub.{Hub, guard, guarded}
use tenon.Trigger.{TriggerConfig, Trigger, Budgets, on_envelope}
use tenon.Trigger.Fire.{publish, fire}
use tenon.Trigger.Publishes.{Publishes, Follows, on_envelope-own, fire-Publishes}

-- The fields that the loop guard reads stay as they are.
pub record SameHop (a b : Envelope) : Type 0 where
  pub hop : b.hop ≡ a.hop
  pub env : b.env ≡ a.env

no_wrap :
    (n first hop cap : ℕ)
    → cap < 2 ^ 32 - 1
    → first < 2 ^ 32 - 1
    → hop ≡ first + n
    → (n ≡ 0) ⊎ (hop ≤ cap)
    → (hop + 1) % 2 ^ 32 ≡ hop + 1
no_wrap n first hop cap low begun hops so_far = ground (arith, hops, so_far)

-- If an envelope comes out, it has the fields.
abbrev Keeps : Envelope → Result String Envelope → Type 0
Keeps e (ok e') = SameHop e e'
Keeps e (err reason) = Unit

guarded-Keeps :
    (now : ℤ) (fresh : String) (a e : Envelope) (h : Hub) (r : Result String (Value × Tags))
    → SameHop a e
    → Keeps a (guarded now fresh e h r).0
guarded-Keeps now fresh a e h (ok (payload, tags)) same = record { hop = same.hop; env = same.env }
guarded-Keeps now fresh a e h (err name) same = tt

guard-Keeps :
    (now : ℤ) (other fresh : String) (e : Envelope) (h : Hub)
    → Keeps e (guard now other (normalize now fresh e) h).0
unfolding guard normalize
guard-Keeps now other fresh e h =
    let same : SameHop e (normalize now fresh e) = record { hop = refl; env = refl } in
    if_both (λ (p : Result String Envelope × Hub). Keeps e p.0) (is_empty h.secrets)
      (ok (normalize now fresh e), h)
      (guarded now other (normalize now fresh e) h
        (scan_envelope h.secrets (normalize now fresh e).payload (normalize now fresh e).tags))
      same (guarded-Keeps now other e (normalize now fresh e) h _ same)

module _ (print : Value → String) (blank : String → Bool) (config : TriggerConfig) where
  -- `Cascade n e e'`: from `e`, `n` firings that publish lead to `e'`. The rules, the budgets, the
  -- approvals, the clock and the hub may be others in each of them.
  pub data Cascade : ℕ → Envelope → Envelope → Type 0 where
    start : {e : Envelope} → Cascade 0 e e
    step :
        {n : ℕ} {e source sent e' : Envelope}
        → Cascade n e source
        → (rules : List Trigger) (i : ℕ) (rule : Trigger)
        → get_elem? (on_envelope rules source) i ≡ some rule
        → (approved : Bool) (now : ℤ) (fresh : String) (budgets : Budgets)
        → (fire print blank config approved now fresh rule source budgets).0 ≡ publish sent
        → (other : String) (h : Hub) → (guard now other (normalize now fresh sent) h).0 ≡ ok e'
        → Cascade (suc n) e e'

  pub record Bounded (n : ℕ) (e e' : Envelope) : Type 0 where
    pub hop : e'.hop ≡ e.hop + n
    pub env : e'.env ≡ e.env
    pub capped : (n ≡ 0) ⊎ (e'.hop ≤ config.hop_cap)

  -- If the cap and the first envelope's hop are below the greatest `u32`: every envelope that a
  -- chain of `n` firings reaches is of the env of the first, is `n` hops from it, and, if the chain
  -- fires at all, is at most `hop_cap` hops from a source: however the rules publish into each
  -- other, no chain of them is longer than the cap.
  pub Cascade-Bounded :
      {n : ℕ} {e e' : Envelope}
      → config.hop_cap < 2 ^ 32 - 1
      → e.hop < 2 ^ 32 - 1
      → Cascade n e e'
      → Bounded n e e'
  Cascade-Bounded low first start = record { hop = omega arith; env = refl; capped = inl refl }
  Cascade-Bounded low first
        (step {n} {e} {source} {sent} {e'} before rules i rule found approved now fresh budgets
          fired other h passed) =
      let ih = Cascade-Bounded low first before in
      let own = All-at _ (on_envelope rules source) i rule (on_envelope-own rules source) found in
      let out : Follows config.hop_cap rule source sent =
        subst (Publishes config.hop_cap rule source) fired
          (fire-Publishes print blank config approved now fresh rule source budgets) in
      let kept : SameHop sent e' = subst (Keeps sent) passed (guard-Keeps now other fresh sent h) in
      let hops = ih.hop in
      let so_far = ih.capped in
      let below = no_wrap n e.hop source.hop config.hop_cap low first hops so_far in
      let this = out.hop in
      let that = kept.hop in
      let cap = out.capped in
      record {
        hop = omega (arith, below, hops, this, that);
        env = kept.env ∙ out.env ∙ own ∙ ih.env;
        capped = inr (omega (arith, this, that, cap));
      }
