-- ===== src/Approvals/Answers.antt =====
-- What is done with the queue of rs/base/src/approvals.rs after a request: it is listed, answered by a
-- human, and its entries expire.
use tenon.Prelude.{
  ℕ, min, max, String, Bool, true, false, ◌||◌, Option, none, some, List, ◌==◌, ℕ_eq, String_eq,
  Result, ok, err, if◌then◌else◌,
}
use tenon.Prelude.Int.{ℤ, pos, negsuc}
use tenon.Text.{◌<>◌}
use tenon.Decimal.{decimal}
use tenon.ApprovalRows.{
  Status, approved, denied, expired, status_text, Approval, Table, approval, approvals,
}
use tenon.Approvals.{
  Answer, lookup, without, send, emit, move_row, move_env_row, list_limit, sweep_approvals, Queue,
  Config, World, Pending, answered, lapsed,
}

unfoldable pub approval_list :
    World → Config → Option String → ℤ → Queue → Result String (List Approval) × Queue
approval_list w config status limit q =
    let swept = sweep_approvals w config q in
    (if w.lists then ok (approvals status (clamp limit) swept.store) else err w.failure, swept)
  where
    -- `limit.clamp(1, LIST_LIMIT)`
    clamp : ℤ → ℕ
    clamp (pos n) = max 1 (min n list_limit)
    clamp (negsuc n) = 1

-- Four words deny; every other approves.
unfoldable pub read_decision : String → Status
read_decision decision =
    if decision == "deny" || decision == "denied" || decision == "no" || decision == "false"
    then denied
    else approved

abbrev pub already : ℕ → Option Approval → String
already id none = "unknown approval " <> decimal id
already id (some row) = "approval " <> decimal id <> " is already " <> status_text row.status

abbrev pub human_reason : ℕ → Status → Pending → String
human_reason id approved p = p.reason
human_reason id _ p = "a human denied approval " <> decimal id

abbrev env_of_row : Option Approval → Option String
env_of_row none = none
env_of_row (some row) = some row.env

abbrev pub human_verdict : ℕ → Status → Option String → Pending → Answer
human_verdict id status said p = ok (record {
  id = some id;
  status = status;
  auto = false;
  note = said;
  reason = human_reason id status p;
})

abbrev pub release : World → ℕ → Status → Option String → Option Pending → Queue → Queue
release w id status said none q =
    let env = if w.reads then env_of_row (approval id q.store) else none in
    emit (answered env id status said) q
release w id status said (some p) q = send p.waiters (human_verdict id status said p) (
    emit (answered (some p.env) id status said)
      (record q { histories = move_env_row w p.env p.env_row status said q.histories }))

abbrev pub on_moved :
    World → ℕ → Status → Option String → Option Bool × Table → Queue → Result String Status × Queue
on_moved w id status said (none, t) q = (err w.failure, q)
on_moved w id status said (some false, t) q =
    (if w.reads then err (already id (approval id q.store)) else err w.failure, q)
on_moved w id status said (some true, t) q = (
  ok status,
  release w id status said (lookup id q.waiting)
      (record q { store = t; waiting = without id q.waiting }),
)

-- The reply to the one who answers, and the queue.
unfoldable pub approval_answer :
    World → ℕ → String → Option String → Queue → Result String Status × Queue
approval_answer w id decision said q =
    let status = read_decision decision in
    on_moved w id status said (move_row w id status said q.store) q

abbrev pub lapse_verdict : ℕ → Answer
lapse_verdict id = ok (record {
  id = some id;
  status = expired;
  auto = false;
  note = none;
  reason = "approval " <> decimal id <> " expired before a human answered";
})

abbrev pub expire_held : World → ℕ → Option Pending → Queue → Queue
expire_held w id none q = q
expire_held w id (some p) q = send p.waiters (lapse_verdict id) (
    emit (lapsed p.env id p.kind) (record q {
      store = (move_row w id expired none q.store).1;
      waiting = without id q.waiting;
      histories = move_env_row w p.env p.env_row expired none q.histories;
    }))

unfoldable pub approval_expire : World → ℕ → Queue → Queue
approval_expire w id q = expire_held w id (lookup id q.waiting) q
