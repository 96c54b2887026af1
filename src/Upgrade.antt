-- ===== src/Upgrade.antt =====
-- The proposals of the change protocol (rs/base/src/upgrade.rs) and the upgrades table
-- (rs/storage/src/upgrades.rs): its rows, the newest first. The artifact of a row and the data of a phase
-- are JSON values; that their texts are read back as them is left out. A waiting task is the number of
-- the channel that it waits on, with the id of its proposal.
pub mod Propose
pub mod Drive
pub mod Runs
pub mod Gated
pub mod Gate
pub mod Rows
pub mod Phases
pub mod Tests
use tenon.Prelude.{
  ℕ, suc, String, Bool, true, false, ◌&&◌, Option, none, some, List, [], ◌∷◌, ◌++◌, ◌==◌, ℕ_eq,
  String_eq, Result, ok, err, contains, if◌then◌else◌,
}
use tenon.Prelude.Int.{ℤ}
use tenon.Text.{◌<>◌}
use tenon.Decimal.{decimal}
use tenon.Json.{Value, null, object, end, Fields, field, string}
use tenon.Trigger.Template.{get}
use tenon.Trigger.Fire.{as_str}
use tenon.ApprovalRows.{status_text}
use tenon.Approvals
use tenon.Approvals.{Answer, Verdict, Queue}
use tenon.Approvals.Gate.{text_or, gate_request}

pub record Phase : Type 0 where
  pub name : String
  pub ok : Bool
  pub at : ℤ
  pub body : Value

-- The statuses of a row, by their texts.
abbrev pub proposed : String
proposed = "proposed"

abbrev pub awaiting : String
awaiting = "awaiting_approval"

abbrev pub promoted : String
promoted = "promoted"

abbrev pub rolled_back : String
rolled_back = "rolled_back"

abbrev pub canary : String
canary = "canary"

pub record Upgrade : Type 0 where
  pub id : ℕ
  pub env : String
  pub target : String
  pub status : String
  pub artifact : Value
  pub notes : String
  pub reason : Option String
  pub phases : List Phase
  pub created_at : ℤ
  pub updated_at : ℤ

pub record Upgrades : Type 0 where
  pub rows : List Upgrade
  pub sequence : ℕ

-- `put_upgrade`: the id is the sequence's afterwards.
unfoldable pub put_upgrade : ℤ → String → String → Value → String → String → Upgrades → Upgrades
put_upgrade now env target artifact notes status t = record {
  rows =
      (record {
        id = suc t.sequence;
        env = env;
        target = target;
        status = status;
        artifact = artifact;
        notes = notes;
        reason = none;
        phases = [];
        created_at = now;
        updated_at = now;
      })
      ∷ t.rows;
  sequence = suc t.sequence;
}

abbrev pub coalesce : Option String → Option String → Option String
coalesce none old = old
coalesce (some new) old = some new

abbrev pub changed : ℤ → String → Option String → List Phase → Upgrade → Upgrade
changed now status reason phases row = record row {
  status = status;
  reason = coalesce reason row.reason;
  phases = phases;
  updated_at = now;
}

abbrev pub change_rows : ℕ → (Upgrade → Upgrade) → List Upgrade → List Upgrade
change_rows id f [] = []
change_rows id f (row ∷ rows) = (if row.id == id then f row else row) ∷ change_rows id f rows

-- `set_upgrade`
unfoldable pub set_upgrade : ℤ → ℕ → String → Option String → List Phase → Upgrades → Upgrades
set_upgrade now id status reason phases t = record t {
  rows = change_rows id (changed now status reason phases) t.rows;
}

abbrev pub row_of : ℕ → List Upgrade → Option Upgrade
row_of id [] = none
row_of id (row ∷ rows) = if row.id == id then some row else row_of id rows

-- `upgrade`
unfoldable pub upgrade : ℕ → Upgrades → Option Upgrade
upgrade id t = row_of id t.rows

pub record Tiers : Type 0 where
  pub kernel : String
  pub plugin : String
  pub worker : String
  pub config : String

-- `Tiers::of`
unfoldable pub tier_of : Tiers → String → String
tier_of tiers target =
    if target == "kernel"
    then tiers.kernel
    else if target == "plugin"
    then tiers.plugin
    else if target == "worker"
    then tiers.worker
    else if target == "config"
    then tiers.config
    else "auto"

-- Which statements of the table succeed, and the clock.
pub record World : Type 0 where
  pub now : ℤ
  pub puts : Bool
  pub sets : Bool
  pub reads : Bool

-- An event of an env by its kind, its proposal and its status or reason.
pub record Event : Type 0 where
  pub env : String
  pub kind : String
  pub id : ℕ
  pub said : String

-- `nodes` tells of each env whether it has a node, and whether that is registered; `drives` are the
-- proposals whose driver has been spawned, the newest first; `channels` is the next channel.
pub record Host : Type 0 where
  pub table : Upgrades
  pub nodes : String → Option Bool
  pub queue : Queue
  pub tasks : List (ℕ × ℕ)
  pub channels : ℕ
  pub drives : List ℕ
  pub events : List Event

pub data Refusal : Type 0 where
  bad_target : String → Refusal
  unknown_env : String → Refusal
  no_artifact : Refusal
  not_stored : Refusal

abbrev pub targets : List String
targets = "plugin" ∷ "worker" ∷ "kernel" ∷ "config" ∷ []

abbrev pub emit_env : String → String → ℕ → String → Host → Host
emit_env env kind id said h = record h {
  events = h.events ++ (record { env = env; kind = kind; id = id; said = said }) ∷ [];
}

abbrev pub read : World → ℕ → Host → Option Upgrade
read w id h = if w.reads then upgrade id h.table else none

abbrev with_step : Option Phase → List Phase → List Phase
with_step none phases = phases
with_step (some step) phases = phases ++ step ∷ []

abbrev store_step : World → ℕ → String → Option String → List Phase → Host → Host
store_step w id status reason phases h = record h {
  table = if w.sets then set_upgrade w.now id status reason phases h.table else h.table;
}

abbrev pub update_row :
    World → ℕ → String → Option String → Option Phase → Option Upgrade → Host → Host
update_row w id status reason step none h = h
update_row w id status reason step (some row) h =
    emit_env row.env "upgrade.phase" id status
      (store_step w id status reason (with_step step row.phases) h)

-- `upgrade_update`; a step that is `null` adds no phase.
unfoldable pub upgrade_update : World → ℕ → String → Option String → Option Phase → Host → Host
upgrade_update w id status reason step h = update_row w id status reason step (read w id h) h

abbrev pub phase_at : World → String → Bool → Fields → Option Phase
phase_at w name fine body = some (record { name = name; ok = fine; at = w.now; body = object body })

abbrev pub drive_for : World → ℕ → Upgrade → Option Bool → Host → Host
drive_for w id row none h =
    upgrade_update w id rolled_back (some ("unknown env " <> row.env))
      (phase_at w "snapshot" false end) h
drive_for w id row (some false) h =
    upgrade_update w id rolled_back (some ("env " <> row.env <> " is not registered"))
      (phase_at w "snapshot" false end) h
drive_for w id row (some true) h =
    let told = emit_env row.env "upgrade.start" id row.target h in
    record told { drives = id ∷ told.drives }

abbrev pub start_row : World → ℕ → Option Upgrade → Host → Host
start_row w id none h = h
start_row w id (some row) h = drive_for w id row (h.nodes row.env) h

unfoldable pub upgrade_start : World → ℕ → Host → Host
upgrade_start w id h = start_row w id (read w id h) h

-- The reason of a proposal's request, which names it.
abbrev pub ask_reason : ℕ → String → String → String
ask_reason id target env = "upgrade " <> decimal id <> ": " <> target <> " of env " <> env

unfoldable pub upgrade_ask : Approvals.World → Approvals.Config → ℕ → String → String → Host → Host
upgrade_ask gw config id env target h = record h {
  queue = gate_request gw config env (ask_reason id target env) "upgrade" h.channels h.queue;
  tasks = (h.channels, id) ∷ h.tasks;
  channels = suc h.channels;
}

abbrev pub tell_rollback : ℕ → String → Option Upgrade → Host → Host
tell_rollback id reason none h = h
tell_rollback id reason (some row) h = emit_env row.env "upgrade.rollback" id reason h

unfoldable pub upgrade_approved : World → ℕ → Option String → Host → Host
upgrade_approved w id none h = upgrade_start w id h
upgrade_approved w id (some reason) h = tell_rollback id reason (read w id h) (
    upgrade_update w id rolled_back (some reason)
      (phase_at w "gate" false (field "reason" (string reason) end)) h)
