-- ===== src/Approvals/Decided.antt =====
-- What the queue of rs/base/src/approvals.rs ever does to its table: it adds rows, and it decides rows
-- that are pending.
use tenon.Prelude.{
  ℕ, suc, ◌≤◌, String, Bool, true, false, ◌≡◌, refl, Option, none, some, List, [], ◌∷◌, ◌==◌, ℕ_eq,
  arith, if◌then◌else◌, All, get_elem?, All-at, ok, if_both, ◌∙◌, String_eq,
}
use tenon.Prelude.Int.{ℤ}
use tenon.ApprovalRows.{
  Status, pending, approved, denied, expired, status_text, Approval, Table, put_approval, approval,
  decide_approval, approvals,
}
use tenon.ApprovalRows.Laws.{sequence-decide}
use tenon.Approvals.{
  Pending, Verdict, Queue, World, Config, lookup, sweep_rows, sweep_age, list_limit,
  sweep_approvals, record_row, settle, hold, enqueue, decide, move_row, may_lapse, add_note,
}
use tenon.Approvals.Answers.{
  approval_list, approval_answer, on_moved, approval_expire, expire_held, read_decision, release,
}
use tenon.Approvals.Gate.{approval_request, gate_request, gate_outcome, resumed, refused}
use tenon.Approvals.Runs.{Call, request, gate, list, answer, expire, step, run}
use tenon.Approvals.Honest.{
  Settled, Keeps, decide_Keeps, put_Keeps, was_there, within_put, row_told,
}
use tenon.Approvals.Preserved.{IsHonest}
use tenon.Approvals.Verdicts.{Works, run-IsHonest}

-- The second table comes from the first by statements of the queue.
pub data Grows : Table → Table → Type 0 where
  same : {t : Table} → Grows t t
  put :
      {t : Table} (now : ℤ) (env reason kind : String) (status : Status)
      → Grows t (put_approval now env reason kind status t)
  decided_row :
      {t : Table} (now : ℤ) (id : ℕ) (status : Status) (said : Option String)
      → Grows t (decide_approval now id status said t).1
  then_too : {t u v : Table} → Grows t u → Grows u v → Grows t v

-- No id of the table is above its sequence.
abbrev pub Fresh : Table → Type 0
Fresh t = (id : ℕ) (row : Approval) → approval id t ≡ some row → id ≤ t.sequence

grown : {t t' : Table} → Grows t t' → Fresh t → Fresh t' × Keeps t t'
grown same fresh = (fresh, λ id row h. h)
grown (put now env reason kind status) fresh =
    (within_put now env reason kind status _ fresh, put_Keeps now env reason kind status _ fresh)
grown (decided_row now id status said) fresh = (
  λ j row there.
      let (before, found) = was_there now id status said _ j row there in
      omega (arith, fresh j before found, sequence-decide now id status said _),
  decide_Keeps now id status said _,
)
grown (then_too first next) fresh =
    let (fresh', keeps) = grown first fresh in
    let (fresh'', keeps') = grown next fresh' in
    (fresh'', λ id row h. keeps' id row (keeps id row h))

pub move-Grows :
    (w : World) (id : ℕ) (status : Status) (said : Option String) (t : Table)
    → Grows t (move_row w id status said t).1
move-Grows w id status said t =
    if_both (λ (m : Option Bool × Table). Grows t m.1) (w.moves id)
      (some (decide_approval w.now id status said t).0, (decide_approval w.now id status said t).1)
      (none, t) (decided_row w.now id status said) same

sweep-Grows :
    (w : World) (older : ℤ) (waiting : List (ℕ × Pending)) (rows : List Approval) (t : Table)
    → Grows t (sweep_rows w older waiting rows t)
sweep-Grows w older waiting [] t = same
sweep-Grows w older waiting (row ∷ rows) t =
    let one =
      if_both (Grows t) (may_lapse w older waiting row) (move_row w row.id expired none t).1 t
        (move-Grows w row.id expired none t) same in
    then_too one (sweep-Grows w older waiting rows _)

pub swept-Grows :
    (w : World) (config : Config) (q : Queue) → Grows q.store (sweep_approvals w config q).store
unfolding sweep_approvals
swept-Grows w config q =
    if_both (Grows q.store) w.lists _ _
      (sweep-Grows w (sweep_age config) q.waiting (approvals (some "pending") list_limit q.store)
        q.store)
      same

note-Grows :
    (w : World) (o : Option ℕ) (status : Status) (said : Option String) (t : Table)
    → Grows t (add_note w o status said t)
note-Grows w none status none t = same
note-Grows w none status (some said) t = same
note-Grows w (some id) status none t = same
note-Grows w (some id) status (some said) t = move-Grows w id status (some said) t

record-Grows :
    (w : World) (env reason kind : String) (status : Status) (said : Option String) (q : Queue)
    → Grows q.store (record_row w env reason kind status said q).1.store
unfolding record_row
record-Grows w env reason kind status said q =
    then_too
      (if_both (Grows q.store) w.puts (put_approval w.now env reason kind status q.store) q.store
        (put w.now env reason kind status) same)
      (note-Grows w (if w.puts then some (suc q.store.sequence) else none) status said _)

hold-store :
    (w : World) (env reason kind : String) (timeout_s channel : ℕ) (r : Option ℕ × Queue)
    → (hold w env reason kind timeout_s channel r).store ≡ r.1.store
hold-store w env reason kind timeout_s channel (none, q) = refl
hold-store w env reason kind timeout_s channel (some id, q) = refl

pub settle-Grows :
    (w : World) (env reason kind : String) (status : Status) (said : String) (channel : ℕ)
    (q : Queue)
    → Grows q.store (settle w env reason kind status said channel q).store
settle-Grows w env reason kind status said channel q = record-Grows w env reason kind status none q

enqueue-Grows :
    (w : World) (env reason kind : String) (timeout_s channel : ℕ) (q : Queue)
    → Grows q.store (enqueue w env reason kind timeout_s channel q).store
unfolding enqueue
enqueue-Grows w env reason kind timeout_s channel q =
    let r = record_row w env reason kind pending none q in
    rw (hold-store w env reason kind timeout_s channel r)
      (record-Grows w env reason kind pending none q)

decide-Grows :
    (w : World) (config : Config) (env reason kind : String) (mode : String × ℕ) (channel : ℕ)
    (q : Queue)
    → Grows q.store (decide w config env reason kind mode channel q).store
unfolding decide
decide-Grows w config env reason kind (mode, timeout_s) channel q =
    let swept = sweep_approvals w config q in
    then_too (swept-Grows w config q) (
      if_both (λ (q' : Queue). Grows swept.store q'.store) _ _ _
        (settle-Grows w env reason kind approved reason channel swept)
        (if_both (λ (q' : Queue). Grows swept.store q'.store) _ _ _
          (settle-Grows w env reason kind denied "approval mode is deny" channel swept)
          (enqueue-Grows w env reason kind timeout_s channel swept)))

release-store :
    (w : World) (id : ℕ) (status : Status) (said : Option String) (held : Option Pending)
    (q : Queue)
    → (release w id status said held q).store ≡ q.store
release-store w id status said none q = refl
release-store w id status said (some p) q = refl

moved-Grows :
    (w : World) (id : ℕ) (status : Status) (said : Option String) (m : Option Bool × Table)
    (q : Queue)
    → Grows q.store m.1
    → Grows q.store (on_moved w id status said m q).1.store
moved-Grows w id status said (none, t) q h = same
moved-Grows w id status said (some false, t) q h = same
moved-Grows w id status said (some true, t) q h =
    rw (release-store w id status said (lookup id q.waiting) _) h

expired-Grows :
    (w : World) (id : ℕ) (held : Option Pending) (q : Queue)
    → Grows q.store (expire_held w id held q).store
expired-Grows w id none q = same
expired-Grows w id (some p) q = move-Grows w id expired none q.store

pub step-Grows :
    (config : Config) (w : World) (call : Call) (q : Queue)
    → Grows q.store (step config w call q).store
unfolding approval_request gate_request approval_list approval_answer approval_expire
step-Grows config w (request overlay env reason kind channel) q =
    decide-Grows w config env reason kind _ channel q
step-Grows config w (gate env reason kind channel) q =
    decide-Grows w config env reason kind _ channel q
step-Grows config w (list status limit) q = swept-Grows w config q
step-Grows config w (answer id decision said) q =
    moved-Grows w id (read_decision decision) said _ q
      (move-Grows w id (read_decision decision) said q.store)
step-Grows config w (expire id) q = expired-Grows w id (lookup id q.waiting) q

run-Grows :
    (config : Config) (calls : List (World × Call)) (q : Queue)
    → Grows q.store (run config calls q).store
run-Grows config [] q = same
run-Grows config ((w, call) ∷ calls) q =
    then_too (step-Grows config w call q) (run-Grows config calls (step config w call q))

-- If no id of the table is above its sequence, a row that has been decided is afterwards the same
-- row, note and time included, whatever calls come and whichever statements fail.
pub run-Settled :
    (config : Config) (calls : List (World × Call)) (q : Queue)
    → Fresh q.store
    → (id : ℕ) (row : Approval) → Settled q.store id row
    → Settled (run config calls q).store id row
run-Settled config calls q fresh = (grown (run-Grows config calls q) fresh).1

resumed_status :
    (kind : String) (v : Verdict) → gate_outcome kind (some (ok v)) ≡ resumed → v.status ≡ approved
unfolding gate_outcome
resumed_status kind v e = by_status v.status _ e
  where
    by_status :
        (s : Status) (reason : String)
        → (if status_text s == "approved" then resumed else refused reason) ≡ resumed
        → s ≡ approved
    by_status pending reason e = absurd (ground (arith, e))
    by_status approved reason e = refl
    by_status denied reason e = absurd (ground (arith, e))
    by_status expired reason e = absurd (ground (arith, e))

-- From a queue whose table, waiting requests and answers agree (`IsHonest`), and as long as no
-- expiry fails on the base's own file: if a gate lets its action go on after a verdict that names a
-- row, then that row is in the table, it has been approved, and it will still be so after any later
-- calls, with whatever failures.
pub resumed_approved :
    (config : Config) (calls later : List (World × Call)) (q : Queue) (kind : String)
    (i channel id : ℕ) (v : Verdict)
    → All Works calls
    → IsHonest q
    → get_elem? (run config calls q).answers i ≡ some (channel, ok v)
    → gate_outcome kind (some (ok v)) ≡ resumed
    → v.id ≡ some id
    → (row : Approval) × Settled (run config later (run config calls q)).store id row
      × (row.status ≡ approved)
resumed_approved config calls later q kind i channel id v works h there goes named =
    let after = run-IsHonest config calls q works h in
    let told = All-at _ _ i _ after.told there in
    let (row, settled, says) = row_told _ v.id v.status id told named in
    let keeps = run-Settled config later (run config calls q) after.fresh in
    (row, keeps id row settled, says ∙ resumed_status kind v goes)
