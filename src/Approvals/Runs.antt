-- ===== src/Approvals/Runs.antt =====
-- Runs of the approval queue (rs/base/src/approvals.rs): the calls that come, each with what it meets
-- outside, one after the other.
use tenon.Prelude.{ℕ, String, Option, List, [], ◌∷◌}
use tenon.Prelude.Int.{ℤ}
use tenon.Json.{Value}
use tenon.ApprovalRows
use tenon.Approvals.{Queue, Config, World}
use tenon.Approvals.Answers.{approval_list, approval_answer, approval_expire}
use tenon.Approvals.Gate.{approval_request, gate_request}

pub data Call : Type 0 where
  request : Value → String → String → String → ℕ → Call
  gate : String → String → String → ℕ → Call
  list : Option String → ℤ → Call
  answer : ℕ → String → Option String → Call
  expire : ℕ → Call

abbrev pub step : Config → World → Call → Queue → Queue
step config w (request overlay env reason kind channel) q =
    approval_request w config overlay env reason kind channel q
step config w (gate env reason kind channel) q = gate_request w config env reason kind channel q
step config w (list status limit) q = (approval_list w config status limit q).1
step config w (answer id decision said) q = (approval_answer w id decision said q).1
step config w (expire id) q = approval_expire w id q

abbrev pub run : Config → List (World × Call) → Queue → Queue
run config [] q = q
run config ((w, call) ∷ calls) q = run config calls (step config w call q)

-- A base that starts: the rows on disk, and no call that waits.
abbrev pub start : ApprovalRows.Table → (String → Option ApprovalRows.Table) → Queue
start store histories = record {
  store = store;
  histories = histories;
  waiting = [];
  answers = [];
  alarms = [];
  events = [];
}
