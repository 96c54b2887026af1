-- ===== src/Budget/Runs.antt =====
-- The calls that reach the budgets and the harnesses (rs/base/src/cmds.rs, rs/base/src/envrpc.rs), each
-- with what it meets outside, one after the other.
use tenon.Prelude.{ℕ, String, Bool, Option, List, [], ◌∷◌}
use tenon.Prelude.Int.{ℤ}
use tenon.Json.{Value}
use tenon.Budget.{Floats, HostConfig, Base, Surroundings}
use tenon.Budget.Accounts.{events_append, tick_budgets, processes}
use tenon.Budget.Harness.{harness_boot, harness_ready, harness_exit, kill_switch, serve}

pub data Call : Type 0 where
  append : String → String → Value → Call
  budget_tick : Call
  count : String → ℤ → Call
  kill : Bool → String → Call
  boot : String → Call
  booted : String → Option ℤ → Option String → Call
  exit : String → ℕ → Call
  halt : Call

module _ (fl : Floats) where
  abbrev pub step : HostConfig fl.Float → Surroundings → Call → Base fl.Float → Base fl.Float
  step config w (append env kind body) b = events_append fl w config env kind body b
  step config w budget_tick b = tick_budgets fl w config b
  step config w (count env n) b = processes fl w config env n b
  step config w (kill on reason) b = kill_switch w on reason b
  step config w (boot env) b = harness_boot w env b
  step config w (booted env pid error) b = harness_ready env pid error b
  step config w (exit env generation) b = harness_exit w config env generation b
  step config w halt b = serve b

  abbrev pub run : HostConfig fl.Float → List (Surroundings × Call) → Base fl.Float → Base fl.Float
  run config [] b = b
  run config ((w, call) ∷ calls) b = run config calls (step config w call b)
