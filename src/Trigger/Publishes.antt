-- ===== src/Trigger/Publishes.antt =====
-- What a firing may publish, and for which envs.
use tenon.Prelude.{
  ℕ, ◌≤◌, String, Bool, true, false, not, ◌&&◌, ◌≡◌, refl, Option, none, some, List, [], ◌∷◌, ◌==◌,
  ℕ_eq, option_beq_iff, String_eq, Option_eq, contains, ltb, All, arith, if_both, if_split,
  &&-eq_true,
}
use tenon.Prelude.Int.{ℤ}
use tenon.Json.{Value}
use tenon.Bus.Envelope.{Envelope}
use tenon.Trigger.{TriggerConfig, Trigger, Budgets, spend, matches, matching, on_envelope}
use tenon.Trigger.Template.{get, or_empty}
use tenon.Trigger.Fire.{
  Effect, idle, publish, http_post, prompt, as_str, publish_topic, post_to, act_publish,
  act_http_post, act_prompt, next_hop, prompted, target, act, fire,
}

-- What a publication must agree with: the source, the rule's env and the cap.
pub record Follows (cap : ℕ) (rule : Trigger) (source e : Envelope) : Type 0 where
  pub hop : e.hop ≡ next_hop source
  pub capped : e.hop ≤ cap
  pub env : e.env ≡ some rule.env
  pub src : e.src ≡ "trigger"

-- Of the effects only a publication is constrained.
abbrev pub Publishes : ℕ → Trigger → Envelope → Effect → Type 0
Publishes cap rule source idle = Unit
Publishes cap rule source (publish e) = Follows cap rule source e
Publishes cap rule source (http_post url headers e) = Unit
Publishes cap rule source (prompt env text) = Unit

own_env :
    (rule : Trigger) (e : Envelope)
    → (some rule.env == e.env && matches rule e) ≡ true
    → some rule.env ≡ e.env
own_env rule e hit =
    (option_beq_iff (some rule.env) e.env).0
      ((&&-eq_true (some rule.env == e.env) (matches rule e) hit).0)

matching-own :
    (rules : List Trigger) (e : Envelope)
    → All (λ (rule : Trigger). some rule.env ≡ e.env) (matching rules e)
unfolding matching
matching-own [] e = tt
matching-own (rule ∷ rules) e =
    if_split (All (λ (rule : Trigger). some rule.env ≡ e.env))
      (some rule.env == e.env && matches rule e) _ _
      (λ hit. (own_env rule e hit, matching-own rules e)) (λ miss. matching-own rules e)

pub on_envelope-own :
    (rules : List Trigger) (e : Envelope)
    → All (λ (rule : Trigger). some rule.env ≡ e.env) (on_envelope rules e)
unfolding on_envelope
on_envelope-own rules e =
    if_both (All _) (e.src == "trigger" && e.hop == 0) _ _ tt (matching-own rules e)

module _ (print : Value → String) (blank : String → Bool) (config : TriggerConfig) where
  topic-Publishes :
      (now : ℤ) (fresh : String) (rule : Trigger) (source : Envelope)
      → ltb config.hop_cap (next_hop source) ≡ false
      → (o : Option String)
      → Publishes config.hop_cap rule source (publish_topic print blank now fresh rule source o)
  topic-Publishes now fresh rule source under none = tt
  topic-Publishes now fresh rule source under (some topic) = record {
    hop = refl;
    capped = ground arith;
    env = refl;
    src = refl;
  }

  publish-Publishes :
      (now : ℤ) (fresh : String) (rule : Trigger) (source : Envelope)
      → Publishes config.hop_cap rule source (act_publish print blank config now fresh rule source)
  unfolding act_publish
  publish-Publishes now fresh rule source =
      if_split (Publishes config.hop_cap rule source) (ltb config.hop_cap (next_hop source)) _ _
        (λ over. tt)
        (λ under. topic-Publishes now fresh rule source under (as_str (get rule.action "topic")))

  posted-Publishes :
      (rule : Trigger) (source : Envelope) (o : Option String)
      → Publishes config.hop_cap rule source (post_to print blank rule source o)
  posted-Publishes rule source none = tt
  posted-Publishes rule source (some url) = tt

  post-Publishes :
      (now : ℤ) (rule : Trigger) (source : Envelope) (budgets : Budgets)
      → Publishes config.hop_cap rule source
          (act_http_post print blank config now rule source budgets).0
  unfolding act_http_post
  post-Publishes now rule source budgets =
      if_both (Publishes config.hop_cap rule source) (spend config now rule.id budgets).0
        (post_to print blank rule source (as_str (get rule.action "url"))) idle
        (posted-Publishes rule source (as_str (get rule.action "url"))) tt

  prompted-Publishes :
      (rule : Trigger) (source : Envelope) (text : String)
      → Publishes config.hop_cap rule source (prompted print blank rule text)
  prompted-Publishes rule source text =
      if_both (Publishes config.hop_cap rule source) (blank text) idle
        (prompt (target rule (as_str (get rule.action "env"))) text) tt tt

  prompt-Publishes :
      (rule : Trigger) (source : Envelope)
      → Publishes config.hop_cap rule source (act_prompt print blank rule source)
  unfolding act_prompt
  prompt-Publishes rule source = prompted-Publishes rule source _

  act-Publishes :
      (now : ℤ) (fresh kind : String) (rule : Trigger) (source : Envelope) (budgets : Budgets)
      → Publishes config.hop_cap rule source
          (act print blank config now fresh kind rule source budgets).0
  unfolding act
  act-Publishes now fresh kind rule source budgets =
      let Good = λ (p : Effect × Budgets). Publishes config.hop_cap rule source p.0 in
      if_both Good (kind == "publish") _ _ (publish-Publishes now fresh rule source) (
        if_both Good (kind == "http_post") _ _ (post-Publishes now rule source budgets)
          (if_both Good (kind == "prompt") _ (idle, budgets) (prompt-Publishes rule source) tt))

  pub fire-Publishes :
      (approved : Bool) (now : ℤ) (fresh : String) (rule : Trigger) (source : Envelope)
      → (budgets : Budgets)
      → Publishes config.hop_cap rule source
          (fire print blank config approved now fresh rule source budgets).0
  unfolding fire
  fire-Publishes approved now fresh rule source budgets =
      let Good = λ (p : Effect × Budgets). Publishes config.hop_cap rule source p.0 in
      let kind = or_empty (as_str (get rule.action "type")) in
      if_both Good (contains config.gated_actions kind && not approved) (idle, budgets) _ tt
        (act-Publishes now fresh kind rule source budgets)
