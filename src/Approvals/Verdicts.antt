-- ===== src/Approvals/Verdicts.antt =====
-- The verdicts of the queue of rs/base/src/approvals.rs: what is told of a row is what the row says.
use tenon.Prelude.{
  ℕ, String, Bool, true, false, ◌≡◌, refl, Option, none, some, List, [], ◌∷◌, ℕ_eq, arith,
  if◌then◌else◌, All, ok,
}
use tenon.Prelude.Int.{ℤ}
use tenon.ApprovalRows.{Status, expired, is_pending, approval, still_pending, decide_approval}
use tenon.Approvals.{
  Pending, Answer, Verdict, Queue, World, Config, lookup, without, tell, move_row,
}
use tenon.Approvals.Answers.{
  approval_list, approval_answer, on_moved, approval_expire, expire_held, read_decision, release,
}
use tenon.Approvals.Gate.{approval_request, gate_request}
use tenon.Approvals.Runs.{Call, request, gate, list, answer, expire, step, run}
use tenon.Approvals.Honest.{
  Honest, remove-Honest, decide-Honest, tell-Honest, lookup-without_same, row_of_each,
}
use tenon.Approvals.Preserved.{IsHonest, moved_row, sweep_approvals-Honest, decide-IsHonest}

-- A request that waits is taken out, its row moved, and its callers told.
told-Honest :
    (now : ℤ) (id : ℕ) (status : Status) (said : Option String) (q : Queue) (channels : List ℕ)
    (v : Verdict)
    → still_pending (approval id q.store) ≡ true
    → is_pending status ≡ false
    → v.id ≡ some id
    → v.status ≡ status
    → IsHonest q
    → Honest
        (decide_approval now id status said q.store).1
        (without id q.waiting)
        (tell channels (ok v) q.answers)
told-Honest now id status said q channels v waits done names says h =
    tell-Honest _ (without id q.waiting) channels (ok v) q.answers
      (λ c. row_of_each _ v.id v.status (λ i e.
        let (row, (there, over), same) = moved_row now id status said q.store waits done in
        (row, (ground (arith, e, names, there), over), ground (arith, same, says))))
      (decide-Honest q.store (without id q.waiting) q.answers now id status said
        (lookup-without_same id q.waiting h.apart) (remove-Honest q.store q.waiting q.answers id h))

read_decision_settles : (decision : String) → is_pending (read_decision decision) ≡ false
unfolding read_decision is_pending
read_decision_settles decision = ground arith

taken_out-Honest :
    (now : ℤ) (id : ℕ) (status : Status) (said : Option String) (q : Queue)
    → IsHonest q
    → Honest (decide_approval now id status said q.store).1 (without id q.waiting) q.answers
taken_out-Honest now id status said q h =
    decide-Honest q.store (without id q.waiting) q.answers now id status said
      (lookup-without_same id q.waiting h.apart) (remove-Honest q.store q.waiting q.answers id h)

release-Honest :
    (w : World) (id : ℕ) (status : Status) (said : Option String) (q : Queue)
    (held : Option Pending)
    → still_pending (approval id q.store) ≡ true
    → is_pending status ≡ false
    → IsHonest q
    → IsHonest (
        release w id status said held (record q {
          store = (decide_approval w.now id status said q.store).1;
          waiting = without id q.waiting;
        }))
release-Honest w id status said q none waits done h = taken_out-Honest w.now id status said q h
release-Honest w id status said q (some p) waits done h =
    told-Honest w.now id status said q p.waiters _ waits done refl refl h

answer-IsHonest :
    (w : World) (id : ℕ) (decision : String) (said : Option String) (q : Queue)
    → IsHonest q
    → IsHonest (approval_answer w id decision said q).1
unfolding approval_answer decide_approval
answer-IsHonest w id decision said q h =
    by_move (w.moves id) (still_pending (approval id q.store)) refl
  where
    by_move :
        (works waits : Bool)
        → still_pending (approval id q.store) ≡ waits
        → IsHonest
            (on_moved w id
              (read_decision decision)
              said
              (if works
                then (
                  some waits,
                  (decide_approval w.now id (read_decision decision) said q.store).1,
                )
                else (none, q.store))
              q).1
    by_move false waits e = h
    by_move true false e = h
    by_move true true e =
        release-Honest w id (read_decision decision) said q (lookup id q.waiting) e
          (read_decision_settles decision) h

expire-IsHonest :
    (w : World) (id : ℕ) (q : Queue)
    → w.moves id ≡ true
    → IsHonest q
    → IsHonest (approval_expire w id q)
unfolding approval_expire is_pending
expire-IsHonest w id q works h = by_entry (lookup id q.waiting) refl
  where
    works_so :
        (waiting : List (ℕ × Pending)) (answers : List (ℕ × Answer))
        → Honest (decide_approval w.now id expired none q.store).1 waiting answers
        → Honest (move_row w id expired none q.store).1 waiting answers
    works_so waiting answers h' = rw works h'

    by_entry :
        (held : Option Pending) → lookup id q.waiting ≡ held → IsHonest (expire_held w id held q)
    by_entry none e = h
    by_entry (some p) e =
        works_so _ _
          (told-Honest w.now id expired none q p.waiters _ (h.held id p e) refl refl refl h)

-- If the step is an expiry, its statement on the base's file succeeds.
abbrev pub Works : World × Call → Type 0
Works (w, expire id) = w.moves id ≡ true
Works (w, _) = Unit

step-IsHonest :
    (config : Config) (w : World) (call : Call) (q : Queue)
    → Works (w, call)
    → IsHonest q
    → IsHonest (step config w call q)
unfolding approval_request gate_request approval_list
step-IsHonest config w (request overlay env reason kind channel) q works h =
    decide-IsHonest w config env reason kind _ channel q h
step-IsHonest config w (gate env reason kind channel) q works h =
    decide-IsHonest w config env reason kind _ channel q h
step-IsHonest config w (list status limit) q works h = sweep_approvals-Honest w config q h
step-IsHonest config w (answer id decision said) q works h = answer-IsHonest w id decision said q h
step-IsHonest config w (expire id) q works h = expire-IsHonest w id q works h

-- As long as no expiry fails on the base's own file, a run keeps this: no id of the table is above
-- its sequence, no two requests that wait have one id, every request that waits has a pending row, and
-- every verdict that was given with an id is the status of a row of that id that has been decided.
pub run-IsHonest :
    (config : Config) (calls : List (World × Call)) (q : Queue)
    → All Works calls
    → IsHonest q
    → IsHonest (run config calls q)
run-IsHonest config [] q works h = h
run-IsHonest config ((w, call) ∷ calls) q works h =
    run-IsHonest config calls (step config w call q) works.1
      (step-IsHonest config w call q works.0 h)
