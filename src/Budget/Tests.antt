-- ===== src/Budget/Tests.antt =====
-- The budgets and harnesses (rs/base/src/budget.rs, rs/base/src/harness.rs) at one concrete host: a
-- guardian, and an env `root` with a harness and a limit of 100 tokens. Floats are whole numbers.
use tenon.Prelude.{
  ℕ, ◌+◌, ◌*◌, ◌/◌, String, Bool, true, false, ◌≡◌, refl, sym, subst, contains, Option, none, some,
  List, [], ◌∷◌, ◌==◌, String_eq, ltb, leb, not, if◌then◌else◌, Result, ok, err, Bool-cases, inl,
  inr, arith, ◌&&◌, ◌||◌, if_split,
}
use tenon.Prelude.Int.{ℤ, pos, pos_part}
use tenon.Decimal.{decimal}
use tenon.Json.{Value, object, field, end, integer}
use tenon.Budget.{Floats, Spent, off, ready, Node, HostConfig, Base, Surroundings}
use tenon.Budget.Overlay.{budgets_of}
use tenon.Budget.Accounts.{allow_prompt}
use tenon.Budget.Runs.{Call, append, budget_tick, kill, boot, halt, run}
use tenon.Budget.Halted.{HaltedFor}
use tenon.Budget.Prompts.{limit_refused}
use tenon.Budget.Stopped.{Stopped, Quiet, implies, is_guardian, is_there, may_run, has_process}
use tenon.Budget.Stopped.Kill.{run-Stopped}

abbrev whole : Floats
whole = record {
  Float = ℕ;
  of_int = pos_part;
  of_bits = λ n. n;
  add = λ a b. a + b;
  mul = λ a b. a * b;
  div = λ a b. a / b;
  lt = ltb;
  le = leb;
  printed = decimal;
}

abbrev fresh_budget : Spent ℕ
fresh_budget = record { tokens = pos 0; usd = 0; started = pos 1000; halted = none }

abbrev guardian_node : Node ℕ
guardian_node = record {
  role = "guardian";
  registered = true;
  generation = 1;
  peer = true;
  store = true;
  sandbox = false;
  harness = off;
  harness_pid = none;
  harness_restarts = 0;
  budget = fresh_budget;
}

abbrev root_node : Node ℕ
root_node = record guardian_node {
  role = "env";
  sandbox = true;
  harness = ready (some (pos 7));
  harness_pid = some (pos 7);
}

abbrev config : HostConfig ℕ
config = record {
  budgets = record { tokens = pos 100; usd = 0; wall_s = 0; processes = pos 0 };
  usd_per_1k = record { input = 0; output = 0 };
  max_restarts = 3;
}

abbrev host_nodes : String → Option (Node ℕ)
host_nodes env =
    if env == "root" then some root_node else if env == "guardian" then some guardian_node else none

abbrev host : Base ℕ
host = record {
  envs = "guardian" ∷ "root" ∷ [];
  nodes = host_nodes;
  killed = none;
  stopping = false;
  halts = [];
  events = [];
  probes = [];
}

abbrev around : Surroundings
around = record {
  now = pos 5000;
  overlay = λ env. some (object end);
  appends = true;
  spawned = λ env. some (pos 9);
  overlay_error = λ env. "no overlay";
  spawn_error = λ env. "no process";
}

abbrev message : Value
message = object (
    field "usage"
      (object (field "prompt" (integer (pos 90)) (field "completion" (integer (pos 20)) end))) end)

abbrev later : List (Surroundings × Call)
later =
    (around, budget_tick)
    ∷ (around, kill true "STOP exists")
    ∷ (around, halt)
    ∷ (around, kill false "gone")
    ∷ (around, boot "root")
    ∷ []

limit_example :
    (reason : String) × HaltedFor "root" reason
      (run whole config ((around, append "root" "assistant/message" message) ∷ later) host)
    × ((said : String) × (allow_prompt "root"
            (run whole config ((around, append "root" "assistant/message" message) ∷ later) host)
          ≡ err said))
unfolding tenon.Prelude.Int.◌+ℤ◌ budgets_of
limit_example =
    limit_refused whole config around "root" message host root_node later refl refl refl refl

host-Stopped : Stopped host
host-Stopped = record {
  quiet = λ env. (elim (Bool-cases (env == "root")) [
    | inl hit ↦
        subst (λ (k : String). Quiet none [] k (host_nodes k))
          (sym ((String_eq.beq_iff env "root").0 hit)) refl
    | inr miss ↦ (elim (Bool-cases (env == "guardian")) [
      | inl named ↦ ground (arith, miss, named)
      | inr other ↦ ground (arith, miss, other)
    ])
  ]);
  named = λ env. (elim (Bool-cases (env == "root")) [
    | inl hit ↦
        subst (λ (k : String). implies (is_guardian (host_nodes k)) (k == "guardian") ≡ true)
          (sym ((String_eq.beq_iff env "root").0 hit)) refl
    | inr miss ↦ (elim (Bool-cases (env == "guardian")) [
      | inl named ↦ ground (arith, miss, named)
      | inr other ↦ ground (arith, miss, other)
    ])
  ]);
  listed = λ env. (elim (Bool-cases (env == "root")) [
    | inl hit ↦
        subst (λ (k : String). implies (is_there (host_nodes k)) (contains host.envs k) ≡ true)
          (sym ((String_eq.beq_iff env "root").0 hit)) refl
    | inr miss ↦ (elim (Bool-cases (env == "guardian")) [
      | inl named ↦
          subst (λ (k : String). implies (is_there (host_nodes k)) (contains host.envs k) ≡ true)
            (sym ((String_eq.beq_iff env "guardian").0 named)) refl
      | inr other ↦ ground (arith, miss, other)
    ])
  ]);
}

stopped_example :
    Stopped (run whole config later host)
    × ((env : String)
        → may_run
            (run whole config later host).killed
            (run whole config later host).halts
            env
            ((run whole config later host).nodes env)
          ≡ false
        → has_process ((run whole config later host).nodes env) ≡ false)
stopped_example = run-Stopped whole config later host host-Stopped

abbrev halted_host : Base ℕ
halted_host = record host {
  nodes = λ env.
      (if env == "root"
        then some (record root_node { budget = record fresh_budget { halted = some "spent" } })
        else none);
}
