-- ===== src/Upgrade/Tests.antt =====
-- Proposals of one env (rs/base/src/upgrade.rs) whose tier asks for a plugin and lets a config through.
use tenon.Prelude.{
  ◌++◌, String, true, false, ◌≡◌, refl, Option, none, some, List, [], ◌∷◌, ◌==◌, String_eq, arith,
  Result, ok, err, if◌then◌else◌,
}
use tenon.Prelude.Int.{pos}
use tenon.Json.{Value, object, field, end, string, null}
use tenon.ApprovalRows.{empty, approval}
use tenon.Approvals
use tenon.Approvals.Runs as Queues
use tenon.Approvals.Preserved.{IsHonest}
use tenon.Upgrade.{
  World, Host, Upgrade, Tiers, upgrade, upgrade_start, put_upgrade, upgrade_update, set_upgrade,
  tier_of,
}
use tenon.Upgrade.Propose.{upgrade_propose, objection}
use tenon.Upgrade.Runs.{Around, Call, propose, queue, answered, run}
use tenon.Upgrade.Drive.{Trial, drive, apply}
use tenon.Upgrade.Gated.{Gated}
use tenon.Upgrade.Gate.{run-Gated}
use tenon.Upgrade.Phases.{Concluded, failure_in, steps_of, drive-Concluded}

abbrev queue_world : Approvals.World
queue_world = record {
  now = pos 1000;
  puts = true;
  env_puts = true;
  moves = λ id. true;
  env_moves = true;
  lists = true;
  reads = true;
  failure = "";
  guardian = true;
}

abbrev queue_config : Approvals.Config
queue_config = record { mode = "ask"; timeout_s = 600 }

abbrev world : World
world = record { now = pos 1000; puts = true; sets = true; reads = true }

abbrev around : Around
around = (world, queue_world)

abbrev tiers : Tiers
tiers = record { kernel = "ask"; plugin = "ask"; worker = "ask"; config = "auto" }

abbrev host : Host
host = record {
  table = record { rows = []; sequence = 0 };
  nodes = λ env. (if env == "root" then some true else none);
  queue = Queues.start empty (λ env. some empty);
  tasks = [];
  channels = 0;
  drives = [];
  events = [];
}

abbrev of_target : String → Value
of_target target = object (field "target" (string target) end)

abbrev calls : List (Around × Call)
calls =
    (around, propose "root" (of_target "config"))
    ∷ (around, propose "root" (of_target "plugin"))
    ∷ (around, queue (Queues.answer 1 "yes" none))
    ∷ []

-- The proposal of a config is driven at once, that of a plugin after its approval.
driven : (run queue_config tiers (calls ++ (around, answered 0) ∷ []) host).drives ≡ 2 ∷ 1 ∷ []
unfolding tenon.Upgrade.Runs.resume upgrade_propose objection tier_of upgrade_start upgrade
    put_upgrade tenon.Upgrade.upgrade_ask tenon.Approvals.Answers.approval_answer
    tenon.ApprovalRows.decide_approval approval tenon.Approvals.Gate.gate_request Approvals.decide
    Approvals.enqueue Approvals.record_row tenon.ApprovalRows.put_approval Approvals.sweep_approvals
    tenon.ApprovalRows.approvals tenon.ApprovalRows.is_pending tenon.Approvals.Answers.read_decision
    Approvals.env_approval Approvals.move_env_row tenon.Decimal.decimal tenon.Prelude.Int.◌-ℤ◌
    tenon.Upgrade.Runs.ask_outcome set_upgrade tenon.Upgrade.upgrade_approved upgrade_update
driven = refl

host-IsHonest : IsHonest host.queue
unfolding approval
host-IsHonest = record {
  fresh = λ id row there. absurd (ground (arith, there));
  apart = tt;
  held = λ id p there. absurd (ground (arith, there));
  told = tt;
}

driver_example :
    Gated tiers
      (answered 0)
      (run queue_config tiers calls host)
      (run queue_config tiers (calls ++ (around, answered 0) ∷ []) host).drives
driver_example =
    run-Gated queue_config tiers calls around (answered 0) host (tt, (tt, (tt, tt))) host-IsHonest

-- A canary that fails.
abbrev trial : Trial
trial = record {
  snapshot = ok null;
  baseline = null;
  canary = err "does not mount";
  guard = ok null;
  bench = ok null;
  compared = ok null;
  promote = ok null;
  restored = null;
}

abbrev waiting_host : Host
waiting_host =
    (upgrade_propose world queue_world queue_config tiers "root" (of_target "plugin") host).1

abbrev plugin_row : Upgrade
plugin_row = record {
  id = 1;
  env = "root";
  target = "plugin";
  status = "awaiting_approval";
  artifact = object end;
  notes = "";
  reason = none;
  phases = [];
  created_at = pos 1000;
  updated_at = pos 1000;
}

trial_example :
    (after : Upgrade) × (upgrade 1 (apply world 1 (drive world.now trial) waiting_host).table
      ≡ some after)
    × Concluded (failure_in (steps_of trial)) world.now trial plugin_row after
unfolding upgrade upgrade_propose objection tier_of tenon.Upgrade.upgrade_ask put_upgrade
trial_example = drive-Concluded world 1 trial waiting_host plugin_row refl refl refl
