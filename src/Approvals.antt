-- ===== src/Approvals.antt =====
-- The approval queue (rs/base/src/approvals.rs): requests wait for a human in the base's own state file,
-- each env's file holds the same rows as its history, and the calls that wait are answered with the
-- verdict. A call that waits is the number of its channel. `World` is what a step meets outside: the
-- clock, which statements succeed and how a failure reads, and whether the guardian is connected.
pub mod Answers
pub mod Gate
pub mod Export
pub mod Runs
pub mod Honest
pub mod Preserved
pub mod Verdicts
pub mod Decided
pub mod Waiting
pub mod Tests
use tenon.Prelude.{
  ℕ, suc, ◌*◌, ◌-◌, ◌^◌, ◌%◌, min, max, String, Bool, true, false, not, ◌&&◌, ◌||◌, Option, none,
  some, List, [], ◌∷◌, ◌++◌, map, ◌==◌, ℕ_eq, String_eq, Result, ok, err, if◌then◌else◌, ltb,
}
use tenon.Prelude.Int.{ℤ, pos, negsuc, ◌-ℤ◌, leb_ℤ}
use tenon.Text.{◌<>◌}
use tenon.Decimal.{decimal}
use tenon.ApprovalRows.{
  Status, pending, approved, denied, expired, is_pending, status_text, Approval, Table,
  put_approval, approval, decide_approval, approvals,
}

-- The object a waiting call is answered with. `auto` is written only where it is true, and `note` only
-- in a human's verdict.
pub record Verdict : Type 0 where
  pub id : Option ℕ
  pub status : Status
  pub auto : Bool
  pub note : Option String
  pub reason : String

abbrev pub Answer : Type 0
Answer = Result String Verdict

pub record Pending : Type 0 where
  pub env : String
  pub env_row : Option ℕ
  pub kind : String
  pub reason : String
  pub waiters : List ℕ

pub data Event : Type 0 where
  settled : String → Option ℕ → Status → String → Event
  asked : String → ℕ → String → String → ℕ → Event
  guardian_told : ℕ → String → String → String → Event
  answered : Option String → ℕ → Status → Option String → Event
  lapsed : String → ℕ → String → Event

-- `histories` are the envs' own files, `alarms` the expiries that were set: the id and the seconds.
pub record Queue : Type 0 where
  pub store : Table
  pub histories : String → Option Table
  pub waiting : List (ℕ × Pending)
  pub answers : List (ℕ × Answer)
  pub alarms : List (ℕ × ℕ)
  pub events : List Event

pub record Config : Type 0 where
  pub mode : String
  pub timeout_s : ℕ

pub record World : Type 0 where
  pub now : ℤ
  pub puts : Bool
  pub env_puts : Bool
  pub moves : ℕ → Bool
  pub env_moves : Bool
  pub lists : Bool
  pub reads : Bool
  pub failure : String
  pub guardian : Bool

abbrev pub lookup : ℕ → List (ℕ × Pending) → Option Pending
lookup id [] = none
lookup id ((i, p) ∷ rest) = if i == id then some p else lookup id rest

abbrev pub without : ℕ → List (ℕ × Pending) → List (ℕ × Pending)
without id [] = []
without id ((i, p) ∷ rest) = if i == id then rest else (i, p) ∷ without id rest

abbrev pub tell : List ℕ → Answer → List (ℕ × Answer) → List (ℕ × Answer)
tell [] answer answers = answers
tell (channel ∷ channels) answer answers = tell channels answer ((channel, answer) ∷ answers)

abbrev pub send : List ℕ → Answer → Queue → Queue
send channels answer q = record q { answers = tell channels answer q.answers }

abbrev pub emit : Event → Queue → Queue
emit event q = record q { events = event ∷ q.events }

-- `store.decide_approval` of the base's file: none if the statement fails.
abbrev pub move_row : World → ℕ → Status → Option String → Table → Option Bool × Table
move_row w id status said t =
    if w.moves id
    then (
      some (decide_approval w.now id status said t).0,
      (decide_approval w.now id status said t).1,
    )
    else (none, t)

abbrev pub Histories : Type 0
Histories = String → Option Table

abbrev pub with_history : String → Table → Histories → Histories
with_history env t histories e = if e == env then some t else histories e

abbrev put_history :
    World → String → String → String → Status → Option Table → Histories → Option ℕ × Histories
put_history w env reason kind status none histories = (none, histories)
put_history w env reason kind status (some t) histories =
    if w.env_puts
    then (
      some (suc t.sequence),
      with_history env (put_approval w.now env reason kind status t) histories,
    )
    else (none, histories)

unfoldable pub env_approval :
    World → String → String → String → Status → Histories → Option ℕ × Histories
env_approval w env reason kind status histories =
    put_history w env reason kind status (histories env) histories

abbrev move_history :
    World → String → ℕ → Status → Option String → Option Table → Histories → Histories
move_history w env id status said none histories = histories
move_history w env id status said (some t) histories =
    if w.env_moves
    then with_history env (decide_approval w.now id status said t).1 histories
    else histories

-- What a verdict does to the row in the env's own file, if there is one.
unfoldable pub move_env_row :
    World → String → Option ℕ → Status → Option String → Histories → Histories
move_env_row w env none status said histories = histories
move_env_row w env (some id) status said histories =
    move_history w env id status said (histories env) histories

abbrev pub put_row : World → String → String → String → Status → Table → Table
put_row w env reason kind status t =
    if w.puts then put_approval w.now env reason kind status t else t

abbrev pub add_note : World → Option ℕ → Status → Option String → Table → Table
add_note w (some id) status (some said) t = (move_row w id status (some said) t).1
add_note w _ status _ t = t

-- `record`: the id of the row, if it could be written. The row in the env's file is written here
-- unless it is pending.
unfoldable pub record_row :
    World → String → String → String → Status → Option String → Queue → Option ℕ × Queue
record_row w env reason kind status said q =
    let id = if w.puts then some (suc q.store.sequence) else none in
    (
      id,
      record q {
        store = add_note w id status said (put_row w env reason kind status q.store);
        histories =
            if is_pending status
            then q.histories
            else (env_approval w env reason kind status q.histories).1;
      },
    )

-- `n as i64`
abbrev pub as_i64 : ℕ → ℤ
as_i64 n = if ltb n (2 ^ 63) then pos n else negsuc (2 ^ 64 - n - 1)

-- `timeout_s.max(1) * 1_000` in 64 bits, without a check
abbrev pub sweep_age : Config → ℤ
sweep_age config = as_i64 (max config.timeout_s 1 * 1000 % 2 ^ 64)

abbrev pub is_held : Option Pending → Bool
is_held none = false
is_held (some p) = true

abbrev pub may_lapse : World → ℤ → List (ℕ × Pending) → Approval → Bool
may_lapse w older waiting row =
    not (is_held (lookup row.id waiting)) && leb_ℤ older (w.now -ℤ row.created_at)

abbrev pub sweep_rows : World → ℤ → List (ℕ × Pending) → List Approval → Table → Table
sweep_rows w older waiting [] t = t
sweep_rows w older waiting (row ∷ rows) t =
    sweep_rows w older waiting rows
      (if may_lapse w older waiting row then (move_row w row.id expired none t).1 else t)

abbrev pub list_limit : ℕ
list_limit = 500

unfoldable pub sweep_approvals : World → Config → Queue → Queue
sweep_approvals w config q =
    let old = approvals (some "pending") list_limit q.store in
    record q {
      store = if w.lists then sweep_rows w (sweep_age config) q.waiting old q.store else q.store;
    }

abbrev pub settle : World → String → String → String → Status → String → ℕ → Queue → Queue
settle w env reason kind status answer channel q =
    let (id, q') = record_row w env reason kind status none q in
    send (channel ∷ [])
      (ok (record { id = id; status = status; auto = true; note = none; reason = answer }))
      (emit (settled env id status kind) q')

abbrev pub entry_of : World → String → String → String → ℕ → Queue → Pending
entry_of w env reason kind channel q = record {
  env = env;
  env_row = (env_approval w env reason kind pending q.histories).0;
  kind = kind;
  reason = reason;
  waiters = channel ∷ [];
}

abbrev pub hold : World → String → String → String → ℕ → ℕ → Option ℕ × Queue → Queue
hold w env reason kind timeout_s channel (none, q) =
    send (channel ∷ []) (err "the approval queue is not writable") q
hold w env reason kind timeout_s channel (some id, q) = record q {
  histories = (env_approval w env reason kind pending q.histories).1;
  waiting = (id, entry_of w env reason kind channel q) ∷ without id q.waiting;
  events =
      (if w.guardian then guardian_told id env reason kind ∷ [] else [])
      ++ asked env id reason kind timeout_s ∷ q.events;
  alarms = (id, max timeout_s 1) ∷ q.alarms;
}

unfoldable pub enqueue : World → String → String → String → ℕ → ℕ → Queue → Queue
enqueue w env reason kind timeout_s channel q =
    hold w env reason kind timeout_s channel (record_row w env reason kind pending none q)

unfoldable pub decide : World → Config → String → String → String → String × ℕ → ℕ → Queue → Queue
decide w config env reason kind (mode, timeout_s) channel q =
    let swept = sweep_approvals w config q in
    if mode == "auto"
    then settle w env reason kind approved reason channel swept
    else if mode == "deny"
    then settle w env reason kind denied "approval mode is deny" channel swept
    else enqueue w env reason kind timeout_s channel swept
