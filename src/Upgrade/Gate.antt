-- ===== src/Upgrade/Gate.antt =====
-- The gate of rs/base/src/upgrade.rs along a run of the commands: no proposal of a tier that asks gets a
-- driver without an approval.
use tenon.Prelude.{
  ℕ, String, Bool, true, false, ◌≡◌, refl, sym, ◌∙◌, subst, Option, none, some, List, [], ◌∷◌, ◌==◌,
  String_eq, All, if_split, ◌++◌,
}
use tenon.Approvals
use tenon.Approvals.{Answer, Queue}
use tenon.Approvals.Runs as Queues
use tenon.Approvals.Preserved.{IsHonest}
use tenon.Approvals.Verdicts.{Works, run-IsHonest}
use tenon.Upgrade.{
  World, Host, Upgrade, Phase, Tiers, Refusal, read, upgrade_update, update_row, upgrade_start,
  start_row, drive_for, upgrade_ask, upgrade_approved, tell_rollback, tier_of, proposed, ask_reason,
}
use tenon.Upgrade.Propose.{
  upgrade_propose, propose_unless, objection, set_off, written, first_status, target_of,
}
use tenon.Upgrade.Runs.{
  Around, Call, propose, queue, answered, phase, step, run, resume, resume_with, ask_outcome,
}
use tenon.Upgrade.Gated.{Gated, step-Gated}

update_queue :
    (w : World) (id : ℕ) (status : String) (reason : Option String) (stage : Option Phase)
    (h : Host)
    → (upgrade_update w id status reason stage h).queue ≡ h.queue
unfolding upgrade_update
update_queue w id status reason stage h = row_queue (read w id h)
  where
    row_queue : (row : Option Upgrade) → (update_row w id status reason stage row h).queue ≡ h.queue
    row_queue none = refl
    row_queue (some row) = refl

drive_queue :
    (w : World) (id : ℕ) (row : Upgrade) (node : Option Bool) (h : Host)
    → (drive_for w id row node h).queue ≡ h.queue
drive_queue w id row none h = update_queue w id _ _ _ h
drive_queue w id row (some false) h = update_queue w id _ _ _ h
drive_queue w id row (some true) h = refl

start_queue : (w : World) (id : ℕ) (h : Host) → (upgrade_start w id h).queue ≡ h.queue
unfolding upgrade_start
start_queue w id h = row_queue (read w id h)
  where
    row_queue : (row : Option Upgrade) → (start_row w id row h).queue ≡ h.queue
    row_queue none = refl
    row_queue (some row) = drive_queue w id row (h.nodes row.env) h

approved_queue :
    (w : World) (id : ℕ) (refused : Option String) (h : Host)
    → (upgrade_approved w id refused h).queue ≡ h.queue
unfolding upgrade_approved
approved_queue w id none h = start_queue w id h
approved_queue w id (some reason) h = told_queue (read w id h) _ ∙ update_queue w id _ _ _ h
  where
    told_queue : (row : Option Upgrade) (m : Host) → (tell_rollback id reason row m).queue ≡ m.queue
    told_queue none m = refl
    told_queue (some row) m = refl

resume_queue :
    (w : World) (channel : ℕ) (task : Option ℕ) (answer : Option Answer) (h : Host)
    → (resume_with w channel task answer h).queue ≡ h.queue
resume_queue w channel none answer h = refl
resume_queue w channel (some id) none h = refl
resume_queue w channel (some id) (some answer) h = approved_queue w id (ask_outcome id answer) _

set_off-IsHonest :
    (w : World) (gw : Approvals.World) (config : Approvals.Config) (tiers : Tiers)
    (env target : String) (h : Host)
    → IsHonest h.queue
    → IsHonest (set_off w gw config tiers env target h).queue
unfolding upgrade_ask
set_off-IsHonest w gw config tiers env target h honest =
    let reason = ask_reason h.table.sequence target env in
    if_split (λ (m : Host). IsHonest m.queue) (first_status (tier_of tiers target) == proposed)
      (upgrade_start w h.table.sequence h) (upgrade_ask gw config h.table.sequence env target h)
      (λ e. subst IsHonest (sym (start_queue w h.table.sequence h)) honest)
      (λ e.
        run-IsHonest config ((gw, Queues.gate env reason "upgrade" h.channels) ∷ []) h.queue
          (tt, tt) honest)

-- If the call is an expiry of the queue, its statement on the base's file succeeds.
abbrev pub WorksOut : Around × Call → Type 0
WorksOut ((w, gw), queue call) = Works (gw, call)
WorksOut (w, _) = Unit

step-IsHonest :
    (config : Approvals.Config) (tiers : Tiers) (w : Around) (call : Call) (h : Host)
    → WorksOut (w, call)
    → IsHonest h.queue
    → IsHonest (step config tiers w call h).queue
unfolding resume upgrade_propose
step-IsHonest config tiers (w, gw) (propose env params) h works honest =
    proposed_unless (objection w env params h)
  where
    proposed_unless :
        (o : Option Refusal) → IsHonest (propose_unless w gw config tiers env params o h).1.queue
    proposed_unless none =
        set_off-IsHonest w gw config tiers env (target_of params) (written w tiers env params h)
          honest
    proposed_unless (some reason) = honest
step-IsHonest config tiers (w, gw) (queue call) h works honest =
    run-IsHonest config ((gw, call) ∷ []) h.queue (works, tt) honest
step-IsHonest config tiers (w, gw) (answered channel) h works honest =
    subst IsHonest (sym (resume_queue w channel _ _ h)) honest
step-IsHonest config tiers (w, gw) (phase id status reason stage) h works honest =
    subst IsHonest (sym (update_queue w id status reason stage h)) honest

run-Honest :
    (config : Approvals.Config) (tiers : Tiers) (calls : List (Around × Call)) (h : Host)
    → All WorksOut calls
    → IsHonest h.queue
    → IsHonest (run config tiers calls h).queue
run-Honest config tiers [] h works honest = honest
run-Honest config tiers ((w, call) ∷ calls) h works honest =
    run-Honest config tiers calls (step config tiers w call h) works.1
      (step-IsHonest config tiers w call h works.0 honest)

-- From a queue whose table, waiting requests and answers agree (`IsHonest`), and as long as no expiry
-- fails on the base's own file: after every run of the commands, a command spawns at most one driver.
-- If it spawns one, it is the command that proposes it, and the tier of its target is `auto`; or it is
-- the command that brings an answer, the answer on the channel of that proposal's task is a verdict of
-- approval, and the row that it names, if it names one, is approved in the approvals table.
pub run-Gated :
    (config : Approvals.Config) (tiers : Tiers) (calls : List (Around × Call)) (w : Around)
    (call : Call) (h : Host)
    → All WorksOut calls
    → IsHonest h.queue
    → Gated tiers call
        (run config tiers calls h)
        (run config tiers (calls ++ (w, call) ∷ []) h).drives
run-Gated config tiers [] w call h works honest = step-Gated config tiers w call h honest
run-Gated config tiers ((v, before) ∷ calls) w call h works honest =
    run-Gated config tiers calls w call (step config tiers v before h) works.1
      (step-IsHonest config tiers v before h works.0 honest)
