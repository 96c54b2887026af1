-- ===== src/Budget/Accounts.antt =====
-- The accounting of rs/base/src/budget.rs: the usage of a message, the check of the limits, the count of processes and the gate of the prompts.
use tenon.Prelude.{
  ℕ, String, Bool, false, ◌&&◌, ◌||◌, not, Option, none, some, List, [], ◌∷◌, ◌++◌, ◌==◌, String_eq,
  Result, ok, err, ltb, if◌then◌else◌,
}
use tenon.Prelude.Int.{ℤ, pos, ◌+ℤ◌, ◌-ℤ◌, leb_ℤ, ltb_ℤ, wrap_i64, quot}
use tenon.Text.{◌<>◌}
use tenon.Decimal.{decimal}
use tenon.Json.{Value}
use tenon.Trigger.Template.{get}
use tenon.Trigger.Fire.{or_null}
use tenon.RateLimit.{to_i64}
use tenon.Timer.{as_i64}
use tenon.Budget.{
  Floats, Limits, Prices, Spent, Node, HostConfig, Base, Surroundings, guardian, is_set, is_halted,
  show_int, update, exceeded,
}
use tenon.Budget.Overlay.{or_else, zero_float, budgets_of, prices_of}

abbrev pub is_zero : ℤ → Bool
is_zero n = leb_ℤ n (pos 0) && leb_ℤ (pos 0) n

abbrev pub used : Option Value → ℤ
used v = or_else (pos 0) (as_i64 v)

abbrev pub prompt_of : Value → ℤ
prompt_of usage = used (get usage "prompt")

abbrev pub completion_of : Value → ℤ
completion_of usage = used (get usage "completion")

-- The tokens that a message used: its total, or the sum of its parts if it has none.
abbrev pub total_of : Value → ℤ
total_of usage =
    if is_zero (used (get usage "total"))
    then wrap_i64 (prompt_of usage +ℤ completion_of usage)
    else used (get usage "total")

abbrev pub usage_of : Value → Value
usage_of body = or_null (get body "usage")

abbrev pub unused : Value → Bool
unused usage =
    is_zero (total_of usage) && is_zero (prompt_of usage) && is_zero (completion_of usage)

-- The milliseconds since the start, as whole seconds; 0 for a budget that has not started.
abbrev pub wall_of : ℤ → ℤ → ℤ
wall_of now started = if is_zero started then pos 0 else quot (now -ℤ started) 1000

module _ {F : Type 0} where
  abbrev pub has_role : (String → Bool) → Option (Node F) → Bool
  has_role p none = false
  has_role p (some n) = p n.role

  -- The envs whose node is there and is not the guardian's.
  abbrev pub workers : List String → Base F → List String
  workers [] b = []
  workers (env ∷ envs) b =
      if has_role (λ (r : String). not (r == guardian)) (b.nodes env)
      then env ∷ workers envs b
      else workers envs b

abbrev pub over_tokens : ℤ → ℤ → Bool
over_tokens limit tokens = ltb_ℤ (pos 0) limit && leb_ℤ limit tokens

abbrev over_wall : ℕ → ℤ → Bool
over_wall limit wall = ltb 0 limit && leb_ℤ (to_i64 limit) wall

module _ (fl : Floats) where
  abbrev over_usd : fl.Float → fl.Float → Bool
  over_usd limit usd = fl.lt (zero_float fl) limit && fl.le limit usd

  -- The first limit, of the three that are set, that is reached: what it is of, how much is used, the limit.
  unfoldable pub breach : Limits fl.Float → Spent fl.Float → ℤ → Option (String × String × String)
  breach limits spent wall =
      if over_tokens limits.tokens spent.tokens
      then some ("tokens", show_int spent.tokens, show_int limits.tokens)
      else if over_usd limits.usd spent.usd
      then some ("usd", fl.printed spent.usd, fl.printed limits.usd)
      else if over_wall limits.wall_s wall
      then some ("wall_s", show_int wall, decimal limits.wall_s)
      else none

  unfoldable pub stop_for :
      String → Option (String × String × String) → Base fl.Float → Base fl.Float
  stop_for env none b = b
  stop_for env (some (what, spent, limit)) b = exceeded env what spent limit b

  abbrev pub breach_of :
      Surroundings
      → HostConfig fl.Float
      → String
      → Node fl.Float
      → Option (String × String × String)
  breach_of w config env n =
      breach (budgets_of fl w config env) n.budget (wall_of w.now n.budget.started)

  abbrev pub check_node :
      Surroundings
      → HostConfig fl.Float
      → String
      → Option (Node fl.Float)
      → Base fl.Float
      → Base fl.Float
  check_node w config env none b = b
  check_node w config env (some n) b =
      if is_set n.budget.halted then b else stop_for env (breach_of w config env n) b

  unfoldable pub check_budget :
      Surroundings → HostConfig fl.Float → String → Base fl.Float → Base fl.Float
  check_budget w config env b = check_node w config env (b.nodes env) b

  abbrev pub cost : Prices fl.Float → Value → fl.Float
  cost prices usage =
      fl.add (fl.mul (fl.div (fl.of_int (prompt_of usage)) (fl.of_int (pos 1000))) prices.input)
        (fl.mul (fl.div (fl.of_int (completion_of usage)) (fl.of_int (pos 1000))) prices.output)

  abbrev pub spend : ℤ → fl.Float → Node fl.Float → Node fl.Float
  spend total usd n = record n {
    budget = record n.budget {
      tokens = wrap_i64 (n.budget.tokens +ℤ total);
      usd = fl.add n.budget.usd usd;
    };
  }

  abbrev pub charged :
      Surroundings → HostConfig fl.Float → String → Value → Base fl.Float → Base fl.Float
  charged w config env usage b = record b {
    nodes = update env (spend (total_of usage) (cost (prices_of fl w config env) usage)) b.nodes;
  }

  unfoldable pub account :
      Surroundings → HostConfig fl.Float → String → String → Value → Base fl.Float → Base fl.Float
  account w config env kind body b =
      let checked = check_budget w config env (charged w config env (usage_of body) b) in
      if not (kind == "assistant/message") || unused (usage_of body) then b else checked

  abbrev pub append_to :
      Surroundings
      → HostConfig fl.Float
      → String
      → String
      → Value
      → Option (Node fl.Float)
      → Base fl.Float
      → Base fl.Float
  append_to w config env kind body none b = b
  append_to w config env kind body (some n) b =
      let counted = account w config env kind body b in if n.store && w.appends then counted else b

  -- A row of a session log is counted once it is stored.
  unfoldable pub events_append :
      Surroundings → HostConfig fl.Float → String → String → Value → Base fl.Float → Base fl.Float
  events_append w config env kind body b = append_to w config env kind body (b.nodes env) b

  abbrev may_count : Option (Node fl.Float) → Bool
  may_count none = false
  may_count (some n) = not (is_set n.budget.halted) && n.sandbox

  abbrev ask_count : String → Base fl.Float → Base fl.Float
  ask_count env b = record b { probes = b.probes ++ env ∷ [] }

  -- One turn of the loop of `tick_budgets`.
  unfoldable pub tick_env :
      Surroundings → HostConfig fl.Float → String → Base fl.Float → Base fl.Float
  tick_env w config env b =
      let checked = check_budget w config env b in
      if not (leb_ℤ (budgets_of fl w config env).processes (pos 0)) && may_count (checked.nodes env)
      then ask_count env checked
      else checked

  abbrev pub tick_envs :
      Surroundings → HostConfig fl.Float → List String → Base fl.Float → Base fl.Float
  tick_envs w config [] b = b
  tick_envs w config (env ∷ envs) b = tick_envs w config envs (tick_env w config env b)

  unfoldable pub tick_budgets : Surroundings → HostConfig fl.Float → Base fl.Float → Base fl.Float
  tick_budgets w config b = tick_envs w config (workers b.envs b) b

  unfoldable pub processes :
      Surroundings → HostConfig fl.Float → String → ℤ → Base fl.Float → Base fl.Float
  processes w config env count b =
      let limit = (budgets_of fl w config env).processes in
      let stopped = exceeded env "processes" (show_int count) (show_int limit) b in
      if leb_ℤ limit (pos 0) || leb_ℤ count limit then b else stopped

abbrev pub gate_node : String → Option String → Result String String
gate_node env none = ok "ok"
gate_node env (some reason) = err ("env " <> env <> " is halted: " <> reason)

abbrev pub gate_kill : Option String → Result String String → Result String String
gate_kill none next = next
gate_kill (some reason) next = err ("the kill switch is on: " <> reason)

module _ {F : Type 0} where
  abbrev pub halted_reason : Option (Node F) → Option String
  halted_reason none = none
  halted_reason (some n) = n.budget.halted

  -- Its answer, as the text `ok` or the refusal.
  unfoldable pub allow_prompt : String → Base F → Result String String
  allow_prompt env b = gate_kill b.killed (gate_node env (halted_reason (b.nodes env)))

  abbrev pub halted : String → Base F → Bool
  halted env b = is_set b.killed || is_halted (b.nodes env)
