-- ===== src/Budget/Prompts.antt =====
-- The hard stop of rs/base/src/budget.rs, from the message that reaches the limit of an env's tokens to
-- the prompts that are refused after it; and the gate of the prompts itself.
use tenon.Prelude.{
  String, Bool, true, false, ◌≡◌, refl, sym, ap, subst, Bool-cases, ◌∙◌, Option, none, some, List,
  ◌∷◌, String_eq, arith, not, ◌||◌, ◌&&◌, if_split, Result, ok, err, Option-cases, inl, inr,
}
use tenon.Prelude.Int.{◌+ℤ◌, wrap_i64}
use tenon.Json.{Value}
use tenon.Budget.{
  Floats, Node, HostConfig, Base, Surroundings, is_set, change_node, is_halted, show_int, update,
  exceeded, halt_with, breach_reason,
}
use tenon.Budget.Overlay.{budgets_of, prices_of}
use tenon.Budget.Accounts.{
  halted, gate_node, gate_kill, halted_reason, allow_prompt, events_append, append_to, account,
  check_budget, check_node, breach, breach_of, stop_for, over_tokens, total_of, usage_of, unused,
  spend, charged, cost,
}
use tenon.Budget.Runs.{Call, append, run}
use tenon.Budget.Halted
use tenon.Budget.Halted.{HaltedFor, run_refused}

unfoldable pub is_open : Result String String → Bool
is_open (ok answer) = true
is_open (err said) = false

-- A gate that lets through is one of an env that is not halted.
open_gate :
    (env : String) (killed reason : Option String)
    → is_open (gate_kill killed (gate_node env reason)) ≡ not (is_set killed || is_set reason)
unfolding is_open
open_gate env none none = refl
open_gate env none (some reason) = refl
open_gate env (some said) reason = refl

module _ (fl : Floats) (w : Surroundings) (config : HostConfig fl.Float) (env : String) where
  -- A node over its limit of tokens has a breach, and the check stops it.
  breach_there :
      (n : Node fl.Float)
      → over_tokens (budgets_of fl w config env).tokens n.budget.tokens ≡ true
      → (b : String × String × String) × (breach_of fl w config env n ≡ some b)
  unfolding breach
  breach_there n over = (
    ("tokens", show_int n.budget.tokens, show_int (budgets_of fl w config env).tokens),
    ground (arith, over),
  )

  halted_change :
      (reason : String) (m : Option (Node fl.Float)) (n : Node fl.Float)
      → m ≡ some n
      → halted_reason (change_node (halt_with reason) m) ≡ some reason
  halted_change reason m n there =
      ap (λ (k : Option (Node fl.Float)). halted_reason (change_node (halt_with reason) k)) there

  newly_stopped :
      (b : Base fl.Float) (n : Node fl.Float) (what used limit : String)
      → b.nodes env ≡ some n
      → is_halted (b.nodes env) ≡ false
      → HaltedFor env (breach_reason (what, used, limit)) (exceeded env what used limit b)
  newly_stopped b n what used limit there free =
      let reason = breach_reason (what, used, limit) in
      let Stopped =
        λ (nodes : String → Option (Node fl.Float)). halted_reason (nodes env) ≡ some reason in
      subst Stopped (sym (Halted.nodes_after env reason env what used limit b)) (
        if_split Stopped (is_halted (b.nodes env)) b.nodes (update env (halt_with reason) b.nodes)
          (λ e. absurd (ground (arith, e, free)))
          (λ e.
            Halted.update_split (λ (m : Option (Node fl.Float)). halted_reason m ≡ some reason) env
              (halt_with reason) b.nodes env (λ hit. halted_change reason (b.nodes env) n there)
              (λ miss. absurd (ground (arith, miss, (String_eq.beq_iff env env).1 refl)))))

  reason_of :
      (m : Option (Node fl.Float)) → is_halted m ≡ true → (r : String) × (halted_reason m ≡ some r)
  reason_of none h = absurd (ground (arith, h))
  reason_of (some n) h = elim (Option-cases n.budget.halted) [
    | inl free ↦ absurd (ground (arith, h, free))
    | inr found ↦ found
  ]

  stopped_after :
      (b : Base fl.Float) (n : Node fl.Float) (what used limit : String)
      → b.nodes env ≡ some n
      → (reason : String) × HaltedFor env reason (exceeded env what used limit b)
  stopped_after b n what used limit there = elim (Bool-cases (is_halted (b.nodes env))) [
    | inl old ↦
        let r = reason_of (b.nodes env) old in
        (r.0, Halted.exceeds_halted env r.0 env what used limit b r.1)
    | inr free ↦ (breach_reason (what, used, limit), newly_stopped b n what used limit there free)
  ]

  abbrev Stops : Base fl.Float → Type 0
  Stops b = (reason : String) × HaltedFor env reason b

  stopped_for :
      (b : Base fl.Float) (n : Node fl.Float) (found : String × String × String)
      (breach : Option (String × String × String))
      → breach ≡ some found
      → b.nodes env ≡ some n
      → Stops (stop_for fl env breach b)
  unfolding stop_for
  stopped_for b n found none e there = absurd (ground (arith, e))
  stopped_for b n found (some (what, spent, limit)) e there =
      stopped_after b n what spent limit there

  checked_over :
      (b : Base fl.Float) (n : Node fl.Float) (m : Option (Node fl.Float))
      → b.nodes env ≡ m
      → m ≡ some n
      → over_tokens (budgets_of fl w config env).tokens n.budget.tokens ≡ true
      → Stops (check_node fl w config env m b)
  checked_over b n none at there over = absurd (ground (arith, there))
  checked_over b n (some k) at there over =
      let same : k ≡ n = ground (arith, there) in
      let found = breach_there n over in
      let breaks : breach_of fl w config env k ≡ some found.0 =
        ap (breach_of fl w config env) same ∙ found.1 in
      if_split Stops (is_set k.budget.halted) b (stop_for fl env (breach_of fl w config env k) b)
        (λ old. reason_of (b.nodes env) (ap is_halted at ∙ old))
        (λ free. stopped_for b k found.0 _ breaks at)

  charged_node :
      (usage : Value) (b : Base fl.Float) (n : Node fl.Float)
      → b.nodes env ≡ some n
      → (charged fl w config env usage b).nodes env
        ≡ some (spend fl (total_of usage) (cost fl (prices_of fl w config env) usage) n)
  charged_node usage b n there =
      let f = spend fl (total_of usage) (cost fl (prices_of fl w config env) usage) in
      Halted.update_split (λ (m : Option (Node fl.Float)). m ≡ some (f n)) env f b.nodes env
        (λ hit. ap (change_node f) there)
        (λ miss. absurd (ground (arith, miss, (String_eq.beq_iff env env).1 refl)))

  account-Stops :
      (body : Value) (b : Base fl.Float) (n : Node fl.Float)
      → b.nodes env ≡ some n
      → unused (usage_of body) ≡ false
      → over_tokens
          (budgets_of fl w config env).tokens
          (wrap_i64 (n.budget.tokens +ℤ total_of (usage_of body)))
        ≡ true
      → Stops (account fl w config env "assistant/message" body b)
  unfolding account check_budget
  account-Stops body b n there some_use over =
      let after = charged fl w config env (usage_of body) b in
      let f =
        spend fl (total_of (usage_of body)) (cost fl (prices_of fl w config env) (usage_of body)) in
      if_split Stops (unused (usage_of body)) b (check_node fl w config env (after.nodes env) after)
        (λ e. absurd (ground (arith, e, some_use)))
        (λ e.
          checked_over after (f n) (after.nodes env) refl (charged_node (usage_of body) b n there)
            over)

  append-Stops :
      (body : Value) (b : Base fl.Float) (n : Node fl.Float) (m : Option (Node fl.Float))
      → m ≡ some n
      → b.nodes env ≡ some n
      → (n.store && w.appends) ≡ true
      → unused (usage_of body) ≡ false
      → over_tokens
          (budgets_of fl w config env).tokens
          (wrap_i64 (n.budget.tokens +ℤ total_of (usage_of body)))
        ≡ true
      → Stops (append_to fl w config env "assistant/message" body m b)
  append-Stops body b n none at there stored some_use over = absurd (ground (arith, at))
  append-Stops body b n (some k) at there stored some_use over =
      let same : k ≡ n = ground (arith, at) in
      let kept : (k.store && w.appends) ≡ true =
        ap (λ (m : Node fl.Float). m.store && w.appends) same ∙ stored in
      if_split Stops (k.store && w.appends) (account fl w config env "assistant/message" body b) b
        (λ e. account-Stops body b n there some_use over) (λ e. absurd (ground (arith, e, kept)))

module _ (fl : Floats) where
  -- A message that is stored in the log of an env, uses some tokens and takes the env's tokens to its
  -- limit or over it, where that is set, leaves the env stopped: after every run of calls that follows
  -- (none of which is a reset) the env is halted for one reason, and a prompt of it is refused.
  pub limit_refused :
      (config : HostConfig fl.Float) (w : Surroundings) (env : String) (body : Value)
      (b : Base fl.Float) (n : Node fl.Float) (calls : List (Surroundings × Call))
      → b.nodes env ≡ some n
      → (n.store && w.appends) ≡ true
      → unused (usage_of body) ≡ false
      → over_tokens
          (budgets_of fl w config env).tokens
          (wrap_i64 (n.budget.tokens +ℤ total_of (usage_of body)))
        ≡ true
      → (reason : String) × HaltedFor env reason
          (run fl config ((w, append env "assistant/message" body) ∷ calls) b)
        × ((said : String) × (allow_prompt env
                (run fl config ((w, append env "assistant/message" body) ∷ calls) b)
              ≡ err said))
  unfolding events_append
  limit_refused config w env body b n calls there stored some_use over =
      let stop =
        append-Stops fl w config env body b n (b.nodes env) there there stored some_use over in
      let after =
        run_refused fl config calls env stop.0
          (events_append fl w config env "assistant/message" body b) stop.1 in
      (stop.0, after.0, after.1)

  -- A prompt of an env is let through exactly if the kill switch is off and the env is not halted.
  pub gate-halted :
      (env : String) (b : Base fl.Float) → is_open (allow_prompt env b) ≡ not (halted env b)
  unfolding allow_prompt
  gate-halted env b = ground (arith, open_gate env b.killed (halted_reason (b.nodes env)))
