-- ===== src/Trigger.antt =====
-- The trigger service (rs/base/src/trigger.rs): rules that fire an action when an envelope of their
-- env matches. The rules are what `reload` read last, the map of the budgets is a function, and
-- what `serde_json` prints for a value is a parameter.
pub mod Template
pub mod Fuel
pub mod Record
pub mod Restored
pub mod Store
pub mod Fire
pub mod Publishes
pub mod Cascade
pub mod Budget
pub mod Tests
use tenon.Prelude.{
  ℕ, ◌+◌, String, Bool, true, false, not, ◌&&◌, ◌||◌, Option, none, some, List, [], ◌∷◌, ◌==◌, ℕ_eq,
  String_eq, Option_eq, any, retain, is_empty, ltb, leb, if◌then◌else◌,
}
use tenon.Prelude.Int.{ℤ, pos, ◌-ℤ◌, leb_ℤ}
use tenon.Json.{Value}
use tenon.Bus.Tags
use tenon.Bus.Tags.{Tags}
use tenon.Bus.Envelope.{Envelope}
use tenon.Bus.Filter.{glob}

pub record TriggerConfig : Type 0 where
  pub hop_cap : ℕ
  pub calls_per_min : ℕ
  pub http_retries : ℕ
  pub gated_actions : List String

-- `TriggerConfig::default()`
abbrev pub default_config : TriggerConfig
default_config = record { hop_cap = 4; calls_per_min = 60; http_retries = 3; gated_actions = [] }

pub record Trigger : Type 0 where
  pub id : String
  pub env : String
  pub admin : Bool
  pub topics : List String
  pub tags : Tags
  pub action : Value

-- The loop over `self.tags`.
abbrev tags_met : Tags → Tags → Bool
tags_met [] got = true
tags_met ((key, value) ∷ rest) got =
    if not (Tags.get got key == some value) then false else tags_met rest got

-- `Trigger::matches`
unfoldable pub matches : Trigger → Envelope → Bool
matches rule e =
    if not (is_empty rule.topics) && not (any (λ p. glob p e.topic) rule.topics)
    then false
    else tags_met rule.tags e.tags

unfoldable pub matching : List Trigger → Envelope → List Trigger
matching rules e = retain (λ (rule : Trigger). some rule.env == e.env && matches rule e) rules

-- The rules that an envelope fires, each on a task of its own.
unfoldable pub on_envelope : List Trigger → Envelope → List Trigger
on_envelope rules e = if e.src == "trigger" && e.hop == 0 then [] else matching rules e

-- `budgets`: per id the start of the window and the calls in it.
abbrev pub Budgets : Type 0
Budgets = String → Option (ℤ × ℕ)

abbrev pub window_ms : ℤ
window_ms = pos 60_000

-- `entry(id).or_insert((now, 0))`
abbrev pub entry_or : ℤ → Option (ℤ × ℕ) → ℤ × ℕ
entry_or now none = (now, 0)
entry_or now (some entry) = entry

-- A window that has run out starts again.
abbrev pub entry_at : ℤ → ℤ × ℕ → ℤ × ℕ
entry_at now (start, calls) = if leb_ℤ window_ms (now -ℤ start) then (now, 0) else (start, calls)

abbrev pub put : Budgets → String → ℤ × ℕ → Budgets
put budgets id entry other = if other == id then some entry else budgets other

abbrev pub spend_entry : ℕ → ℤ × ℕ → Bool × (ℤ × ℕ)
spend_entry cap (start, calls) =
    if leb cap calls then (false, (start, calls)) else (true, (start, calls + 1))

abbrev pub spend_at : ℕ → String → Budgets → ℤ × ℕ → Bool × Budgets
spend_at cap id budgets entry =
    ((spend_entry cap entry).0, put budgets id (spend_entry cap entry).1)

unfoldable pub spend : TriggerConfig → ℤ → String → Budgets → Bool × Budgets
spend config now id budgets =
    if config.calls_per_min == 0
    then (true, budgets)
    else spend_at config.calls_per_min id budgets (entry_at now (entry_or now (budgets id)))
