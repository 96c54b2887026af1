-- ===== src/Upgrade/Drive.antt =====
-- The driver of one proposal (`drive` and `run` of rs/base/src/drive.rs): the commands that it sends
-- back to the base, for the answers that its requests and file work get.
use tenon.Prelude.{ℕ, String, true, Option, none, some, List, [], ◌∷◌, ◌++◌, Result, ok, err, ◌>>=◌}
use tenon.Prelude.Int.{ℤ}
use tenon.Text.{◌<>◌}
use tenon.Json.{Value, object, end, field, string}
use tenon.Upgrade.{World, Host, Phase, promoted, rolled_back, canary, upgrade_update}

-- The answers of the steps: `guard` is that of the prompt gate, `bench` the benchmark's row, `compared`
-- its comparison with the last known good, `restored` what the rollback brought back.
pub record Trial : Type 0 where
  pub snapshot : Result String Value
  pub baseline : Value
  pub canary : Result String Value
  pub guard : Result String Value
  pub bench : Result String Value
  pub compared : Result String Value
  pub promote : Result String Value
  pub restored : Value

-- `Cmd::UpgradePhase`
pub record Command : Type 0 where
  pub status : String
  pub reason : Option String
  pub stage : Phase

abbrev command : ℤ → String → String → Value → Command
command now status name body = record {
  status = status;
  reason = none;
  stage = record { name = name; ok = true; at = now; body = body };
}

abbrev pub hard_rules : Result String Value → Result String Value
hard_rules (ok v) = ok v
hard_rules (err error) = err ("hard rules: " <> error)

-- `verify`
abbrev pub verify : Trial → Result String Value
verify t = hard_rules t.guard >>= (λ passed. t.bench >>= (λ row. t.compared))

abbrev pub verified :
    ℤ → Result String Value → Result String Value → List Command × Result String Value
verified now promote (err reason) = ([], err reason)
verified now promote (ok v) = (command now "verify" "verify" v ∷ [], promote)

abbrev pub mounted : ℤ → Trial → Result String Value → List Command × Result String Value
mounted now t (err reason) = ([], err reason)
mounted now t (ok v) =
    let (commands, answer) = verified now t.promote (verify t) in
    (command now canary "canary" v ∷ commands, answer)

abbrev pub snapped : ℤ → Trial → Result String Value → List Command × Result String Value
snapped now t (err reason) = ([], err reason)
snapped now t (ok v) =
    let (commands, answer) = mounted now t t.canary in
    (
      command now "snapshot" "snapshot" v ∷ command now "snapshot" "baseline" t.baseline ∷ commands,
      answer,
    )

-- `run`: the phases that it reports, and its answer.
unfoldable pub run : ℤ → Trial → List Command × Result String Value
run now t = snapped now t t.snapshot

abbrev rollback_body : String → Value → Value
rollback_body reason restored =
    object (field "reason" (string reason) (field "restored" restored end))

abbrev pub last_command : ℤ → Value → Result String Value → Command
last_command now restored (ok v) = command now promoted "promote" v
last_command now restored (err reason) =
    record (command now rolled_back "rollback" (rollback_body reason restored)) {
      reason = some reason;
    }

unfoldable pub drive : ℤ → Trial → List Command
drive now t =
    let (commands, answer) = run now t in commands ++ last_command now t.restored answer ∷ []

-- The base's side: each command in its order.
abbrev pub apply : World → ℕ → List Command → Host → Host
apply w id [] h = h
apply w id (c ∷ commands) h =
    apply w id commands (upgrade_update w id c.status c.reason (some c.stage) h)
