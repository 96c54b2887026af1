-- ===== src/Upgrade/Propose.antt =====
-- `upgrade.propose` (rs/base/src/upgrade.rs): the tier of the target decides whether the driver starts
-- or a human is asked first.
use tenon.Prelude.{
  ℕ, String, Bool, true, false, not, Option, none, some, ◌==◌, String_eq, Result, ok, err, contains,
  if◌then◌else◌,
}
use tenon.Json.{Value, null, object, end}
use tenon.Trigger.Template.{get}
use tenon.Approvals
use tenon.Approvals.Gate.{text_or}
use tenon.Upgrade.{
  World, Host, Refusal, bad_target, unknown_env, no_artifact, not_stored, Tiers, tier_of, targets,
  proposed, awaiting, put_upgrade, emit_env, upgrade_start, upgrade_ask,
}

abbrev object_or_empty : Option Value → Value
object_or_empty none = object end
object_or_empty (some null) = object end
object_or_empty (some v) = v

abbrev is_object : Value → Bool
is_object (object fields) = true
is_object v = false

abbrev is_there : Option Bool → Bool
is_there none = false
is_there (some b) = true

abbrev pub target_of : Value → String
target_of params = text_or params "target" ""

abbrev pub artifact_of : Value → Value
artifact_of params = object_or_empty (get params "artifact")

abbrev pub first_status : String → String
first_status tier = if tier == "auto" then proposed else awaiting

-- The row of the proposal, and the event of it.
abbrev pub written : World → Tiers → String → Value → Host → Host
written w tiers env params h =
    let target = target_of params in
    let table =
      put_upgrade w.now env target (artifact_of params) (text_or params "notes" "")
        (first_status (tier_of tiers target)) h.table in
    emit_env env "upgrade.propose" table.sequence target (record h { table = table })

-- What follows the answer to the caller.
abbrev pub set_off :
    World → Approvals.World → Approvals.Config → Tiers → String → String → Host → Host
set_off w gw config tiers env target h =
    if first_status (tier_of tiers target) == proposed
    then upgrade_start w h.table.sequence h
    else upgrade_ask gw config h.table.sequence env target h

-- Why a proposal is refused, if it is.
unfoldable pub objection : World → String → Value → Host → Option Refusal
objection w env params h =
    if not (contains targets (target_of params))
    then some (bad_target (target_of params))
    else if not (is_there (h.nodes env))
    then some (unknown_env env)
    else if not (is_object (artifact_of params))
    then some no_artifact
    else if not w.puts
    then some not_stored
    else none

abbrev pub propose_unless :
    World
    → Approvals.World
    → Approvals.Config
    → Tiers
    → String
    → Value
    → Option Refusal
    → Host
    → Result Refusal ℕ × Host
propose_unless w gw config tiers env params (some reason) h = (err reason, h)
propose_unless w gw config tiers env params none h =
    let after = written w tiers env params h in
    (ok after.table.sequence, set_off w gw config tiers env (target_of params) after)

-- The answer is the id of the row.
unfoldable pub upgrade_propose :
    World
    → Approvals.World
    → Approvals.Config
    → Tiers
    → String
    → Value
    → Host
    → Result Refusal ℕ × Host
upgrade_propose w gw config tiers env params h =
    propose_unless w gw config tiers env params (objection w env params h) h
