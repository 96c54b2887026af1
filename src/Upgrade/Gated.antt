-- ===== src/Upgrade/Gated.antt =====
-- Which proposals of rs/base/src/upgrade.rs get a driver: those of an `auto` tier, and those whose
-- request has been approved.
use tenon.Prelude.{
  ℕ, suc, String, Bool, true, false, ◌≡◌, refl, ap, ◌∙◌, Option, none, some, List, [], ◌∷◌, ◌==◌,
  ◌⊎◌, inl, inr, ℕ_eq, String_eq, arith, All, ok, err, if◌then◌else◌, if_split, subst, Bool-cases,
}
use tenon.Json.{Value}
use tenon.ApprovalRows.{Status, approved, pending, denied, expired, status_text}
use tenon.Approvals
use tenon.Approvals.{Answer, Verdict}
use tenon.Approvals.Honest.{Backed, Agrees}
use tenon.Approvals.Preserved.{IsHonest}
use tenon.Upgrade.{
  World, Host, Upgrade, Phase, Tiers, Refusal, tier_of, proposed, awaiting, read, upgrade_update,
  update_row, upgrade_start, start_row, drive_for, upgrade_ask, upgrade_approved, put_upgrade,
  tell_rollback,
}
use tenon.Upgrade.Propose.{
  objection, propose_unless, upgrade_propose, set_off, written, first_status, target_of,
}
use tenon.Upgrade.Runs.{
  Around, Call, propose, queue, answered, phase, step, resume, resume_with, task_on, answer_on,
  ask_outcome, refusal_of, without_task,
}

updated_drives :
    (w : World) (id : ℕ) (status : String) (reason : Option String) (stage : Option Phase)
    (row : Option Upgrade) (h : Host)
    → (update_row w id status reason stage row h).drives ≡ h.drives
updated_drives w id status reason stage none h = refl
updated_drives w id status reason stage (some row) h = refl

update_drives :
    (w : World) (id : ℕ) (status : String) (reason : Option String) (stage : Option Phase)
    (h : Host)
    → (upgrade_update w id status reason stage h).drives ≡ h.drives
unfolding upgrade_update
update_drives w id status reason stage h = updated_drives w id status reason stage (read w id h) h

-- At most the driver of `id` is new.
abbrev OnlyStarts : ℕ → List ℕ → List ℕ → Type 0
OnlyStarts id before after = (after ≡ before) ⊎ (after ≡ id ∷ before)

driven :
    (w : World) (id : ℕ) (row : Upgrade) (node : Option Bool) (h : Host)
    → OnlyStarts id h.drives (drive_for w id row node h).drives
driven w id row none h = inl (update_drives w id _ _ _ h)
driven w id row (some false) h = inl (update_drives w id _ _ _ h)
driven w id row (some true) h = inr refl

started : (w : World) (id : ℕ) (h : Host) → OnlyStarts id h.drives (upgrade_start w id h).drives
unfolding upgrade_start
started w id h = started_row (read w id h)
  where
    started_row : (row : Option Upgrade) → OnlyStarts id h.drives (start_row w id row h).drives
    started_row none = inl refl
    started_row (some row) = driven w id row (h.nodes row.env) h

-- The task that waits on the channel is that of `id`, its answer is a verdict of approval, and the row
-- that the verdict names, if it names one, is approved in the table.
abbrev pub ApprovedOn : ℕ → ℕ → Host → Type 0
ApprovedOn channel id h =
    (task_on channel h.tasks ≡ some id)
    × ((v : Verdict) × (answer_on channel h.queue.answers ≡ some (ok v))
        × (v.status ≡ approved)
        × Backed h.queue.store v.id approved)

-- Why a call may start the driver of a proposal.
abbrev pub MayStart : Tiers → Call → ℕ → Host → Type 0
MayStart tiers (propose env params) id h =
    (tier_of tiers (target_of params) ≡ "auto") × (id ≡ suc h.table.sequence)
MayStart tiers (answered channel) id h = ApprovedOn channel id h
MayStart tiers call id h = ⊥

-- The drivers after the call are those before it, and at most one more, which may start.
abbrev pub Gated : Tiers → Call → Host → List ℕ → Type 0
Gated tiers call h after =
    (after ≡ h.drives) ⊎ ((id : ℕ) × (after ≡ id ∷ h.drives) × MayStart tiers call id h)

first_by : (b : Bool) → ((if b then proposed else awaiting) == proposed) ≡ true → b ≡ true
first_by true e = refl
first_by false e = absurd (ground (arith, e))

auto_first : (tier : String) → (first_status tier == proposed) ≡ true → tier ≡ "auto"
auto_first tier e = (String_eq.beq_iff tier "auto").0 (first_by (tier == "auto") e)

set_off-Gated :
    (w : World) (gw : Approvals.World) (config : Approvals.Config) (tiers : Tiers) (env : String)
    (params : Value) (h : Host)
    → Gated tiers
        (propose env params)
        h
        (set_off w gw config tiers env (target_of params) (written w tiers env params h)).drives
unfolding put_upgrade upgrade_ask
set_off-Gated w gw config tiers env params h =
    let after = written w tiers env params h in
    let target = target_of params in
    if_split (λ (m : Host). Gated tiers (propose env params) h m.drives)
      (first_status (tier_of tiers target) == proposed) (upgrade_start w after.table.sequence after)
      (upgrade_ask gw config after.table.sequence env target after)
      (λ e. elim (started w after.table.sequence after) [
        | inl same ↦ inl same
        | inr new ↦ inr (after.table.sequence, new, (auto_first (tier_of tiers target) e, refl))
      ])
      (λ e. inl refl)

status_approved : (v : Verdict) (id : ℕ) → refusal_of id v ≡ none → v.status ≡ approved
status_approved v id e = by_status v.status _ e
  where
    by_status :
        (s : Status) (reason : String)
        → (if status_text s == "approved" then none else some reason) ≡ none
        → s ≡ approved
    by_status pending reason e = absurd (ground (arith, e))
    by_status approved reason e = refl
    by_status denied reason e = absurd (ground (arith, e))
    by_status expired reason e = absurd (ground (arith, e))

proposed-Gated :
    (w : World) (gw : Approvals.World) (config : Approvals.Config) (tiers : Tiers) (env : String)
    (params : Value) (h : Host)
    → Gated tiers (propose env params) h (upgrade_propose w gw config tiers env params h).1.drives
unfolding upgrade_propose
proposed-Gated w gw config tiers env params h = proposed_unless (objection w env params h)
  where
    proposed_unless :
        (o : Option Refusal)
        → Gated tiers
            (propose env params)
            h
            (propose_unless w gw config tiers env params o h).1.drives
    proposed_unless none = set_off-Gated w gw config tiers env params h
    proposed_unless (some reason) = inl refl

Backed-as :
    (v : Verdict) (h : Host)
    → Backed h.queue.store v.id v.status
    → v.status ≡ approved
    → Backed h.queue.store v.id approved
Backed-as v h told same = subst (λ (s : Status). Backed h.queue.store v.id s) same told

told_on :
    (channel : ℕ) (v : Verdict) (h : Host) (answers : List (ℕ × Answer))
    → All (Agrees h.queue.store) answers
    → answer_on channel answers ≡ some (ok v)
    → Backed h.queue.store v.id v.status
told_on channel v h [] told e = absurd (ground (arith, e))
told_on channel v h ((c, answer) ∷ answers) told e = elim (Bool-cases (c == channel)) [
  | inl hit ↦
      let same : answer ≡ ok v = ground (arith, e, hit) in
      subst (λ (a : Answer). Agrees h.queue.store (c, a)) same told.0
  | inr miss ↦ told_on channel v h answers told.1 (ground (arith, e, miss))
]

approved_drives :
    (w : World) (id : ℕ) (refused : Option String) (h : Host)
    → ((upgrade_approved w id refused h).drives ≡ h.drives)
      ⊎ (((upgrade_approved w id refused h).drives ≡ id ∷ h.drives) × (refused ≡ none))
unfolding upgrade_approved
approved_drives w id none h = elim (started w id h) [
  | inl same ↦ inl same
  | inr new ↦ inr (new, refl)
]
approved_drives w id (some reason) h =
    inl (told_drives (read w id h) _ ∙ update_drives w id _ _ _ h)
  where
    told_drives :
        (row : Option Upgrade) (m : Host) → (tell_rollback id reason row m).drives ≡ m.drives
    told_drives none m = refl
    told_drives (some row) m = refl

outcome_none :
    (id : ℕ) (answer : Answer)
    → ask_outcome id answer ≡ none
    → (v : Verdict) × (answer ≡ ok v) × (v.status ≡ approved)
unfolding ask_outcome
outcome_none id (ok v) e = (v, refl, status_approved v id e)
outcome_none id (err error) e = absurd (ground (arith, e))

resumed-Gated :
    (w : World) (tiers : Tiers) (channel : ℕ) (task : Option ℕ) (answer : Option Answer) (h : Host)
    → IsHonest h.queue
    → task_on channel h.tasks ≡ task
    → answer_on channel h.queue.answers ≡ answer
    → Gated tiers (answered channel) h (resume_with w channel task answer h).drives
resumed-Gated w tiers channel none answer h honest at said = inl refl
resumed-Gated w tiers channel (some id) none h honest at said = inl refl
resumed-Gated w tiers channel (some id) (some answer) h honest at said =
    let taken = record h { tasks = without_task channel h.tasks } in
    elim (approved_drives w id (ask_outcome id answer) taken) [
      | inl same ↦ inl same
      | inr (new, fine) ↦
          let (v, same, status) = outcome_none id answer fine in
          let there : answer_on channel h.queue.answers ≡ some (ok v) = said ∙ ap some same in
          let told = told_on channel v h h.queue.answers honest.told there in
          inr (id, new, (at, (v, there, status, Backed-as v h told status)))
    ]

pub step-Gated :
    (config : Approvals.Config) (tiers : Tiers) (w : Around) (call : Call) (h : Host)
    → IsHonest h.queue
    → Gated tiers call h (step config tiers w call h).drives
unfolding resume
step-Gated config tiers (w, gw) (propose env params) h honest =
    proposed-Gated w gw config tiers env params h
step-Gated config tiers (w, gw) (queue call) h honest = inl refl
step-Gated config tiers (w, gw) (answered channel) h honest =
    resumed-Gated w tiers channel _ _ h honest refl refl
step-Gated config tiers (w, gw) (phase id status reason stage) h honest =
    inl (update_drives w id status reason stage h)
