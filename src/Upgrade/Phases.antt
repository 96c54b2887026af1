-- ===== src/Upgrade/Phases.antt =====
-- What a driver of rs/base/src/drive.rs leaves in the row of its proposal.
use tenon.Prelude.{
  ℕ, String, true, ◌≡◌, refl, sym, ap, ◌∙◌, Option, none, some, List, [], ◌∷◌, ◌++◌, map,
  append_assoc, All, Result, ok, err, append-nil, ◌>>=◌,
}
use tenon.Prelude.Int.{ℤ}
use tenon.Json.{Value}
use tenon.Upgrade.{World, Host, Upgrade, coalesce, upgrade, promoted, rolled_back}
use tenon.Upgrade.Drive.{
  Trial, Command, drive, apply, verify, run, verified, mounted, snapped, last_command, hard_rules,
}
use tenon.Upgrade.Rows.{follow, apply-follow}

-- The first step of a trial that fails, by its reason.
abbrev pub failure_in : List (Result String Value) → Option String
failure_in [] = none
failure_in (ok v ∷ answers) = failure_in answers
failure_in (err reason ∷ answers) = some reason

abbrev pub steps_of : Trial → List (Result String Value)
steps_of t = t.snapshot ∷ t.canary ∷ hard_rules t.guard ∷ t.bench ∷ t.compared ∷ t.promote ∷ []

abbrev final_status : Option String → String
final_status none = promoted
final_status (some reason) = rolled_back

abbrev final_reason : Option String → Option String → Option String
final_reason none old = old
final_reason (some reason) old = some reason

-- The row of a proposal after its trial.
pub record Concluded (failure : Option String) (now : ℤ) (t : Trial) (row after : Upgrade)
    : Type 0 where
  pub status : after.status ≡ final_status failure
  pub reason : after.reason ≡ final_reason failure row.reason
  pub phases : after.phases ≡ row.phases ++ map (λ (c : Command). c.stage) (drive now t)
  pub same : after.id ≡ row.id

phases_kept :
    (now : ℤ) (commands : List Command) (row : Upgrade)
    → (follow now commands row).phases ≡ row.phases ++ map (λ (c : Command). c.stage) commands
phases_kept now [] row = sym (append-nil row.phases)
phases_kept now (c ∷ commands) row =
    phases_kept now commands _
    ∙ append_assoc row.phases (c.stage ∷ []) (map (λ (c : Command). c.stage) commands)

abbrev reason_in : Result String Value → Option String
reason_in (ok v) = none
reason_in (err reason) = some reason

-- The commands before the last say no reason.
abbrev Silent : List Command → Type 0
Silent commands = All (λ (c : Command). c.reason ≡ none) commands

-- A run reports without a reason, and answers what its first failing step says.
abbrev Reports : List Command × Result String Value → List (Result String Value) → Type 0
Reports answer steps = Silent answer.0 × (reason_in answer.1 ≡ failure_in steps)

verified-Reports :
    (now : ℤ) (promote v : Result String Value)
    → Reports (verified now promote v) (v ∷ promote ∷ [])
verified-Reports now (ok p) (ok v) = ((refl, tt), refl)
verified-Reports now (err reason) (ok v) = ((refl, tt), refl)
verified-Reports now promote (err reason) = (tt, refl)

mounted-Reports :
    (now : ℤ) (t : Trial) (c : Result String Value)
    → Reports (mounted now t c) (c ∷ verify t ∷ t.promote ∷ [])
mounted-Reports now t (ok v) =
    let rest = verified-Reports now t.promote (verify t) in ((refl, rest.0), rest.1)
mounted-Reports now t (err reason) = (tt, refl)

snapped-Reports :
    (now : ℤ) (t : Trial) (s : Result String Value)
    → Reports (snapped now t s) (s ∷ t.canary ∷ verify t ∷ t.promote ∷ [])
snapped-Reports now t (ok v) =
    let rest = mounted-Reports now t t.canary in ((refl, (refl, rest.0)), rest.1)
snapped-Reports now t (err reason) = (tt, refl)

-- The last command decides the status, and the reason where the others say none.
status_last :
    (now : ℤ) (commands : List Command) (c : Command) (row : Upgrade)
    → (follow now (commands ++ c ∷ []) row).status ≡ c.status
status_last now [] c row = refl
status_last now (d ∷ commands) c row = status_last now commands c _

reason_last :
    (now : ℤ) (commands : List Command) (c : Command) (row : Upgrade)
    → Silent commands
    → (follow now (commands ++ c ∷ []) row).reason ≡ coalesce c.reason row.reason
reason_last now [] c row silent = refl
reason_last now (d ∷ commands) c row silent =
    reason_last now commands c _ silent.1
    ∙ ap (λ (r : Option String). coalesce c.reason (coalesce r row.reason)) silent.0

id_kept :
    (now : ℤ) (commands : List Command) (row : Upgrade) → (follow now commands row).id ≡ row.id
id_kept now [] row = refl
id_kept now (c ∷ commands) row = id_kept now commands _

status_of_last :
    (now : ℤ) (restored : Value) (answer : Result String Value)
    → (last_command now restored answer).status ≡ final_status (reason_in answer)
status_of_last now restored (ok v) = refl
status_of_last now restored (err reason) = refl

reason_of_last :
    (now : ℤ) (restored : Value) (answer : Result String Value) (old : Option String)
    → coalesce (last_command now restored answer).reason old ≡ final_reason (reason_in answer) old
reason_of_last now restored (ok v) old = refl
reason_of_last now restored (err reason) old = refl

-- What `verify` fails with is what the first of its own steps fails with.
verify_steps :
    (guard bench compared : Result String Value) (rest : List (Result String Value))
    → failure_in (guard ∷ bench ∷ compared ∷ rest)
      ≡ failure_in ((guard >>= (λ passed. bench >>= (λ row. compared))) ∷ rest)
verify_steps (err reason) bench compared rest = refl
verify_steps (ok v) (err reason) compared rest = refl
verify_steps (ok v) (ok row) compared rest = refl

-- The steps of a run, as the run takes them.
steps_taken :
    (t : Trial)
    → failure_in (t.snapshot ∷ t.canary ∷ verify t ∷ t.promote ∷ []) ≡ failure_in (steps_of t)
steps_taken t = by_answers t.snapshot t.canary
  where
    by_answers :
        (s c : Result String Value)
        → failure_in (s ∷ c ∷ verify t ∷ t.promote ∷ [])
          ≡ failure_in (s ∷ c ∷ hard_rules t.guard ∷ t.bench ∷ t.compared ∷ t.promote ∷ [])
    by_answers (ok v) (ok u) =
        sym (verify_steps (hard_rules t.guard) t.bench t.compared (t.promote ∷ []))
    by_answers (ok v) (err reason) = refl
    by_answers (err reason) c = refl

follow-Concluded :
    (now : ℤ) (t : Trial) (row : Upgrade)
    → Concluded (failure_in (steps_of t)) now t row (follow now (drive now t) row)
unfolding drive run
follow-Concluded now t row =
    let reports = snapped-Reports now t t.snapshot in
    let answer = (run now t).1 in
    let last = last_command now t.restored answer in
    record {
      status =
          status_last now (run now t).0 last row
          ∙ status_of_last now t.restored answer
          ∙ ap final_status (reports.1 ∙ steps_taken t);
      reason =
          reason_last now (run now t).0 last row reports.0
          ∙ reason_of_last now t.restored answer row.reason
          ∙ ap (λ (f : Option String). final_reason f row.reason) (reports.1 ∙ steps_taken t);
      phases = phases_kept now (drive now t) row;
      same = id_kept now (drive now t) row;
    }

-- With a table whose statements succeed and that holds the proposal's row, a driver comes to an end that
-- the row tells: it is promoted if the snapshot, the canary, the hard rules, the benchmark and the
-- promotion all succeed, and rolled back with the reason of the first that fails otherwise; the phases
-- that were reported stand in the row in their order, after those that were there.
pub drive-Concluded :
    (w : World) (id : ℕ) (t : Trial) (h : Host) (row : Upgrade)
    → w.reads ≡ true
    → w.sets ≡ true
    → upgrade id h.table ≡ some row
    → (after : Upgrade) × (upgrade id (apply w id (drive w.now t) h).table ≡ some after)
      × Concluded (failure_in (steps_of t)) w.now t row after
drive-Concluded w id t h row reads sets there = (
  follow w.now (drive w.now t) row,
  apply-follow w id (drive w.now t) h row reads sets there,
  follow-Concluded w.now t row,
)
