-- ===== src/Budget.antt =====
-- The budgets of the envs (rs/base/src/budget.rs): what an env has spent, its limits and the hard stop.
-- `f64`, its operations and its printing are a parameter. What is emitted is a list of events, and what
-- base sends to itself a queue. A BTreeMap of nodes is the function that looks one up.
pub mod Overlay
pub mod Accounts
pub mod Harness
pub mod Runs
pub mod Closed
pub mod Halted
pub mod Prompts
pub mod Stopped
pub mod Tests
use tenon.Prelude.{
  ℕ, suc, ◌/◌, String, Bool, true, false, ◌&&◌, not, Option, none, some, List, [], ◌∷◌, ◌++◌, ◌==◌,
  String_eq, Result, ok, err, ltb, if◌then◌else◌,
}
use tenon.Prelude.Int.{ℤ, pos, negsuc, ◌+ℤ◌, ◌-ℤ◌, leb_ℤ, ltb_ℤ, wrap_i64, quot}
use tenon.Text.{◌<>◌}
use tenon.Decimal.{decimal}
use tenon.Json.{Value, Fields, end, object, integer, float}
use tenon.Trigger.Template.{get, or_empty}
use tenon.Trigger.Fire.{as_str}
use tenon.RateLimit.{to_i64}
use tenon.Timer.{as_i64, as_u64}

-- What the accounting uses of `f64`.
pub record Floats : Type 1 where
  pub Float : Type 0
  pub of_int : ℤ → Float
  pub of_bits : ℕ → Float
  pub add : Float → Float → Float
  pub mul : Float → Float → Float
  pub div : Float → Float → Float
  pub lt : Float → Float → Bool
  pub le : Float → Float → Bool
  pub printed : Float → String

pub record Limits (F : Type 0) : Type 0 where
  pub tokens : ℤ
  pub usd : F
  pub wall_s : ℕ
  pub processes : ℤ

pub record Prices (F : Type 0) : Type 0 where
  pub input : F
  pub output : F

pub record Spent (F : Type 0) : Type 0 where
  pub tokens : ℤ
  pub usd : F
  pub started : ℤ
  pub halted : Option String

-- `harness::State`
pub data HarnessState : Type 0 where
  off : HarnessState
  booting : HarnessState
  ready : Option ℤ → HarnessState
  failed : String → HarnessState

-- What the budgets and the harness read of a node; `peer`, `store` and `sandbox` tell whether it has
-- one.
pub record Node (F : Type 0) : Type 0 where
  pub role : String
  pub registered : Bool
  pub generation : ℕ
  pub peer : Bool
  pub store : Bool
  pub sandbox : Bool
  pub harness : HarnessState
  pub harness_pid : Option ℤ
  pub harness_restarts : ℕ
  pub budget : Spent F

pub record HostConfig (F : Type 0) : Type 0 where
  pub budgets : Limits F
  pub usd_per_1k : Prices F
  pub max_restarts : ℕ

-- `Cmd::Halt`
pub record Halt : Type 0 where
  pub env : String
  pub reason : String

-- An event, by its env, its kind and the reason or name that its data holds; or a notice to the
-- guardian.
pub data Event : Type 0 where
  event : Option String → String → String → Event
  notice : String → String → Event

-- `probes` are the envs whose processes are being counted.
pub record Base (F : Type 0) : Type 0 where
  pub envs : List String
  pub nodes : String → Option (Node F)
  pub killed : Option String
  pub stopping : Bool
  pub halts : List Halt
  pub events : List Event
  pub probes : List String

-- What a call meets outside: the clock, the overlay of each env as it is read (none if it cannot be),
-- whether an append to a log succeeds, the process that a spawn starts (none if it fails), and the
-- texts of the errors of a reading and of a spawn.
pub record Surroundings : Type 0 where
  pub now : ℤ
  pub overlay : String → Option Value
  pub appends : Bool
  pub spawned : String → Option ℤ
  pub overlay_error : String → String
  pub spawn_error : String → String

abbrev pub guardian : String
guardian = "guardian"

abbrev pub or_object : Option Value → Value
or_object none = object end
or_object (some v) = v

abbrev pub is_set : Option String → Bool
is_set none = false
is_set (some reason) = true

abbrev pub is_halted : {F : Type 0} → Option (Node F) → Bool
is_halted none = false
is_halted (some n) = is_set n.budget.halted

abbrev pub show_int : ℤ → String
show_int (pos n) = decimal n
show_int (negsuc n) = "-" <> decimal (suc n)

-- `self.nodes.get_mut(env)` and a change of the node.
abbrev pub change_node : {F : Type 0} → (Node F → Node F) → Option (Node F) → Option (Node F)
change_node f none = none
change_node f (some n) = some (f n)

unfoldable pub update :
    {F : Type 0}
    → String
    → (Node F → Node F)
    → (String → Option (Node F))
    → String
    → Option (Node F)
update env f nodes other = if env == other then change_node f (nodes other) else nodes other

abbrev pub emit : {F : Type 0} → Event → Base F → Base F
emit e b = record b { events = b.events ++ e ∷ [] }

abbrev is_reachable : {F : Type 0} → Option (Node F) → Bool
is_reachable none = false
is_reachable (some n) = n.peer

unfoldable pub notify_guardian : {F : Type 0} → String → String → Base F → Base F
notify_guardian kind reason b =
    if is_reachable (b.nodes guardian) then emit (notice kind reason) b else b

abbrev pub halt_with : {F : Type 0} → String → Node F → Node F
halt_with reason n = record n { budget = record n.budget { halted = some reason } }

-- The event, the notice and the command that follow a breach.
unfoldable pub announce : {F : Type 0} → String → String → Base F → Base F
announce env reason b =
    let told =
      notify_guardian "budget.exceeded" reason
        (emit (event (some env) "budget.exceeded" reason) b) in
    record told { halts = told.halts ++ (record { env = env; reason = reason }) ∷ [] }

-- A budget, what was used of it and its limit.
abbrev Breach : Type 0
Breach = String × String × String

abbrev pub breach_reason : Breach → String
breach_reason (what, used, limit) = "budget " <> what <> " exhausted: " <> used <> " of " <> limit

unfoldable pub exceeded : {F : Type 0} → String → String → String → String → Base F → Base F
exceeded env what used limit b =
    let reason = breach_reason (what, used, limit) in
    let stopped =
      announce env reason (record b { nodes = update env (halt_with reason) b.nodes }) in
    if is_halted (b.nodes env) then b else stopped
