-- ===== src/Approvals/Preserved.antt =====
-- Each step of the queue of rs/base/src/approvals.rs, by what it does to the table, to the requests
-- that wait and to the answers given.
use tenon.Prelude.{
  ℕ, suc, String, Bool, true, false, ◌≡◌, refl, Option, none, some, List, [], ◌∷◌, ℕ_eq, arith,
  if◌then◌else◌, ok, Option-cases, inl, inr, if_split, if_both,
}
use tenon.Prelude.Int.{ℤ}
use tenon.ApprovalRows.{
  Status, pending, approved, denied, expired, is_pending, Approval, Table, put_approval, approval,
  decided, still_pending, decide_approval, approvals, new_row,
}
use tenon.ApprovalRows.Laws.{approval-decide, approval-put_new}
use tenon.Approvals.{
  Pending, Answer, Queue, World, Config, lookup, sweep_rows, sweep_age, list_limit, sweep_approvals,
  record_row, settle, hold, enqueue, decide, move_row, add_note, may_lapse,
}
use tenon.Approvals.Honest.{
  Honest, Settled, decide-Honest, put-Honest, hold-Honest, tell-Honest, Backed,
}

abbrev pub IsHonest : Queue → Type 0
IsHonest q = Honest q.store q.waiting q.answers

pub moved_row :
    (now : ℤ) (id : ℕ) (status : Status) (said : Option String) (t : Table)
    → still_pending (approval id t) ≡ true
    → is_pending status ≡ false
    → (row : Approval) × Settled (decide_approval now id status said t).1 id row
      × (row.status ≡ status)
moved_row now id status said t waits done = elim (Option-cases (approval id t)) [
  | inl gone ↦ absurd (ground (arith, waits, gone))
  | inr found ↦ (
    decided now status said found.0,
    (ground (arith, approval-decide now id id status said t, waits, found.1), done),
    refl,
  )
]

new_Backed :
    (now : ℤ) (env reason kind : String) (status : Status) (t : Table)
    → is_pending status ≡ false
    → Backed (put_approval now env reason kind status t) (some (suc t.sequence)) status
new_Backed now env reason kind status t done = (
  new_row now env reason kind status t,
  (approval-put_new now env reason kind status t, done),
  refl,
)

new_waits :
    (now : ℤ) (env reason kind : String) (t : Table)
    → still_pending (approval (suc t.sequence) (put_approval now env reason kind pending t)) ≡ true
unfolding is_pending
new_waits now env reason kind t = ground (arith, approval-put_new now env reason kind pending t)

not_held :
    (w : World) (older : ℤ) (waiting : List (ℕ × Pending)) (row : Approval)
    → may_lapse w older waiting row ≡ true
    → lookup row.id waiting ≡ none
not_held w older waiting row e = elim (Option-cases (lookup row.id waiting)) [
  | inl free ↦ free
  | inr found ↦ absurd (ground (arith, e, found.1))
]

move-Honest :
    (w : World) (id : ℕ) (status : Status) (said : Option String) (t : Table)
    (waiting : List (ℕ × Pending)) (answers : List (ℕ × Answer))
    → lookup id waiting ≡ none
    → Honest t waiting answers
    → Honest (move_row w id status said t).1 waiting answers
move-Honest w id status said t waiting answers free h =
    if_both (λ (m : Option Bool × Table). Honest m.1 waiting answers) (w.moves id)
      (some (decide_approval w.now id status said t).0, (decide_approval w.now id status said t).1)
      (none, t) (decide-Honest t waiting answers w.now id status said free h) h

sweep-Honest :
    (w : World) (older : ℤ) (waiting : List (ℕ × Pending)) (rows : List Approval) (t : Table)
    (answers : List (ℕ × Answer))
    → Honest t waiting answers
    → Honest (sweep_rows w older waiting rows t) waiting answers
sweep-Honest w older waiting [] t answers h = h
sweep-Honest w older waiting (row ∷ rows) t answers h =
    sweep-Honest w older waiting rows _ answers (
      if_split (λ t'. Honest t' waiting answers) (may_lapse w older waiting row)
        (move_row w row.id expired none t).1 t
        (λ e.
          move-Honest w row.id expired none t waiting answers (not_held w older waiting row e) h)
        (λ e. h))

pub sweep_approvals-Honest :
    (w : World) (config : Config) (q : Queue) → IsHonest q → IsHonest (sweep_approvals w config q)
unfolding sweep_approvals
sweep_approvals-Honest w config q h =
    if_both (λ t. Honest t q.waiting q.answers) w.lists _ _
      (sweep-Honest w (sweep_age config) q.waiting (approvals (some "pending") list_limit q.store)
        q.store q.answers h)
      h

settle-Honest :
    (w : World) (env reason kind : String) (status : Status) (said : String) (channel : ℕ)
    (q : Queue)
    → is_pending status ≡ false
    → IsHonest q
    → IsHonest (settle w env reason kind status said channel q)
unfolding record_row
settle-Honest w env reason kind status said channel q done h = settled_by w.puts
  where
    settled_by :
        (puts : Bool)
        → Honest
            (add_note w
              (if puts then some (suc q.store.sequence) else none)
              status
              none
              (if puts then put_approval w.now env reason kind status q.store else q.store))
            q.waiting
            ((
              channel,
              ok (record {
                id = if puts then some (suc q.store.sequence) else none;
                status = status;
                auto = true;
                note = none;
                reason = said;
              }),
            )
              ∷ q.answers)
    settled_by true =
        tell-Honest _ q.waiting (channel ∷ []) _ q.answers
          (λ c. new_Backed w.now env reason kind status q.store done)
          (put-Honest q.store q.waiting q.answers w.now env reason kind status h)
    settled_by false = tell-Honest q.store q.waiting (channel ∷ []) _ q.answers (λ c. tt) h

enqueue-Honest :
    (w : World) (env reason kind : String) (timeout_s channel : ℕ) (q : Queue)
    → IsHonest q
    → IsHonest (enqueue w env reason kind timeout_s channel q)
unfolding enqueue record_row is_pending
enqueue-Honest w env reason kind timeout_s channel q h = held_by w.puts
  where
    held_by :
        (puts : Bool)
        → IsHonest (
            hold w env reason kind timeout_s channel (
              if puts then some (suc q.store.sequence) else none,
              record q {
                store =
                    add_note w (if puts then some (suc q.store.sequence) else none) pending none (
                      if puts then put_approval w.now env reason kind pending q.store else q.store);
              },
            ))
    held_by true =
        hold-Honest _ q.waiting q.answers (suc q.store.sequence) _
          (new_waits w.now env reason kind q.store)
          (put-Honest q.store q.waiting q.answers w.now env reason kind pending h)
    held_by false = tell-Honest q.store q.waiting (channel ∷ []) _ q.answers (λ c. tt) h

pub decide-IsHonest :
    (w : World) (config : Config) (env reason kind : String) (mode : String × ℕ) (channel : ℕ)
    (q : Queue)
    → IsHonest q
    → IsHonest (decide w config env reason kind mode channel q)
unfolding decide is_pending
decide-IsHonest w config env reason kind (mode, timeout_s) channel q h =
    let swept = sweep_approvals-Honest w config q h in
    if_both IsHonest _ _ _ (settle-Honest w env reason kind approved reason channel _ refl swept) (
      if_both IsHonest _ _ _
        (settle-Honest w env reason kind denied "approval mode is deny" channel _ refl swept)
        (enqueue-Honest w env reason kind timeout_s channel _ swept))
