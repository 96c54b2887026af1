-- ===== src/Upgrade/Runs.antt =====
-- The commands that reach the proposals (`on_upgrade_cmd` of rs/base/src/upgrade.rs) and the queue that
-- they ask, each with what it meets outside, one after the other.
use tenon.Prelude.{
  ℕ, String, Option, none, some, List, [], ◌∷◌, ◌==◌, ℕ_eq, String_eq, ok, err, if◌then◌else◌,
}
use tenon.Text.{◌<>◌}
use tenon.Decimal.{decimal}
use tenon.Json.{Value}
use tenon.ApprovalRows.{status_text}
use tenon.Approvals
use tenon.Approvals.{Answer, Verdict}
use tenon.Approvals.Runs as Queues
use tenon.Upgrade.{World, Host, Phase, Tiers, upgrade_update, upgrade_approved}
use tenon.Upgrade.Propose.{upgrade_propose}

-- The answer that was sent on a channel.
abbrev pub answer_on : ℕ → List (ℕ × Answer) → Option Answer
answer_on channel [] = none
answer_on channel ((c, answer) ∷ answers) =
    let rest = answer_on channel answers in if c == channel then some answer else rest

-- The JSON text of the answer's id.
abbrev pub id_text : Option ℕ → String
id_text none = "null"
id_text (some id) = decimal id

abbrev pub refusal_of : ℕ → Verdict → Option String
refusal_of id v =
    if status_text v.status == "approved"
    then none
    else some (
        "a human did not approve upgrade "
        <> decimal id
        <> ": approval "
        <> id_text v.id
        <> " is \""
        <> status_text v.status
        <> "\"")

-- What the task of `upgrade_ask` makes of the answer: none if the proposal is approved.
unfoldable pub ask_outcome : ℕ → Answer → Option String
ask_outcome id (ok v) = refusal_of id v
ask_outcome id (err error) = some error

-- Its proposal, while the task waits; and the task is gone once it has its answer.
abbrev pub task_on : ℕ → List (ℕ × ℕ) → Option ℕ
task_on channel [] = none
task_on channel ((c, id) ∷ tasks) = if c == channel then some id else task_on channel tasks

abbrev pub without_task : ℕ → List (ℕ × ℕ) → List (ℕ × ℕ)
without_task channel [] = []
without_task channel ((c, id) ∷ tasks) =
    let rest = without_task channel tasks in if c == channel then rest else (c, id) ∷ rest

abbrev pub resume_with : World → ℕ → Option ℕ → Option Answer → Host → Host
resume_with w channel (some id) (some answer) h =
    upgrade_approved w id (ask_outcome id answer)
      (record h { tasks = without_task channel h.tasks })
resume_with w channel task answer h = h

unfoldable pub resume : World → ℕ → Host → Host
resume w channel h =
    resume_with w channel (task_on channel h.tasks) (answer_on channel h.queue.answers) h

pub data Call : Type 0 where
  propose : String → Value → Call
  queue : Queues.Call → Call
  answered : ℕ → Call
  phase : ℕ → String → Option String → Option Phase → Call

-- What a call meets: the table of the upgrades, and the queue's files.
abbrev pub Around : Type 0
Around = World × Approvals.World

abbrev pub step : Approvals.Config → Tiers → Around → Call → Host → Host
step config tiers (w, gw) (propose env params) h =
    (upgrade_propose w gw config tiers env params h).1
step config tiers (w, gw) (queue call) h = record h { queue = Queues.step config gw call h.queue }
step config tiers (w, gw) (answered channel) h = resume w channel h
step config tiers (w, gw) (phase id status reason stage) h =
    upgrade_update w id status reason stage h

abbrev pub run : Approvals.Config → Tiers → List (Around × Call) → Host → Host
run config tiers [] h = h
run config tiers ((w, call) ∷ calls) h = run config tiers calls (step config tiers w call h)
