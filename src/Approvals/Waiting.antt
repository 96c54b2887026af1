-- ===== src/Approvals/Waiting.antt =====
-- The calls that the queue of rs/base/src/approvals.rs holds and those it has answered: no caller is
-- lost and none is answered twice.
use tenon.Prelude.{
  ℕ, suc, ◌+◌, ◌≤◌, String, Bool, true, false, ◌≡◌, refl, ap, Option, none, some, List, [], ◌∷◌,
  ◌==◌, ℕ_eq, arith, if◌then◌else◌, All, All-map, if_both, String_eq,
}
use tenon.ApprovalRows.{Status, pending, approved, denied, expired, Table, put_approval, is_pending}
use tenon.ApprovalRows.Laws.{sequence-put, sequence-decide}
use tenon.Approvals.{
  Pending, Answer, Queue, World, Config, lookup, without, tell, sweep_approvals, record_row, settle,
  hold, enqueue, decide, add_note,
}
use tenon.Approvals.Answers.{
  approval_list, approval_answer, on_moved, approval_expire, expire_held, read_decision, release,
  human_verdict, lapse_verdict,
}
use tenon.Approvals.Gate.{approval_request, gate_request}
use tenon.Approvals.Runs.{Call, request, gate, list, answer, expire, step, run}
use tenon.Approvals.Decided.{
  Grows, same, put, decided_row, then_too, swept-Grows, settle-Grows, move-Grows,
}

abbrev pub one : ℕ → ℕ → ℕ
one c channel = if channel == c then 1 else 0

abbrev pub occurs : ℕ → List ℕ → ℕ
occurs c [] = 0
occurs c (channel ∷ channels) = one c channel + occurs c channels

-- How often a channel waits, and how many answers it was given.
abbrev pub waits : ℕ → List (ℕ × Pending) → ℕ
waits c [] = 0
waits c ((i, p) ∷ rest) = occurs c p.waiters + waits c rest

abbrev pub answered_times : ℕ → List (ℕ × Answer) → ℕ
answered_times c [] = 0
answered_times c ((channel, a) ∷ rest) = one c channel + answered_times c rest

abbrev pub in_all : ℕ → Queue → ℕ
in_all c q = waits c q.waiting + answered_times c q.answers

-- How often the calls ask on a channel.
abbrev pub asks : ℕ → Call → ℕ
asks c (request overlay env reason kind channel) = one c channel
asks c (gate env reason kind channel) = one c channel
asks c _ = 0

abbrev pub asks_of : ℕ → List (World × Call) → ℕ
asks_of c [] = 0
asks_of c ((w, call) ∷ calls) = asks c call + asks_of c calls

-- The ids that wait are not above the sequence of the table.
abbrev pub Below : Queue → Type 0
Below q = All (λ (entry : ℕ × Pending). entry.0 ≤ q.store.sequence) q.waiting

answered-tell :
    (c : ℕ) (channels : List ℕ) (a : Answer) (answers : List (ℕ × Answer))
    → answered_times c (tell channels a answers) ≡ occurs c channels + answered_times c answers
answered-tell c [] a answers = omega arith
answered-tell c (channel ∷ channels) a answers =
    omega (arith, answered-tell c channels a ((channel, a) ∷ answers))

abbrev held_waits : ℕ → Option Pending → ℕ
held_waits c none = 0
held_waits c (some p) = occurs c p.waiters

waits-without :
    (c id : ℕ) (w : List (ℕ × Pending))
    → waits c w ≡ held_waits c (lookup id w) + waits c (without id w)
waits-without c id [] = omega arith
waits-without c id ((i, p) ∷ rest) = ground (arith, waits-without c id rest)

without_above :
    (n : ℕ) (w : List (ℕ × Pending))
    → All (λ (entry : ℕ × Pending). entry.0 ≤ n) w
    → without (suc n) w ≡ w
without_above n [] h = refl
without_above n ((i, p) ∷ rest) h = ground (arith, h.0, without_above n rest h.1)

All-without :
    (P : ℕ × Pending → Type 0) (id : ℕ) (w : List (ℕ × Pending)) → All P w → All P (without id w)
All-without P id [] h = tt
All-without P id ((i, p) ∷ rest) h =
    if_both (All P) (i == id) rest ((i, p) ∷ without id rest) h.1 (h.0, All-without P id rest h.1)

grows_up : {t t' : Table} → Grows t t' → t.sequence ≤ t'.sequence
grows_up same = omega arith
grows_up (put now env reason kind status) = omega (arith, sequence-put now env reason kind status _)
grows_up (decided_row now id status said) = omega (arith, sequence-decide now id status said _)
grows_up (then_too first next) = omega (arith, grows_up first, grows_up next)

-- What a step does with the callers: it keeps the ids below the sequence, and it counts the new ones.
abbrev Accounts : ℕ → ℕ → Queue → Queue → Type 0
Accounts c new q q' = Below q' × (in_all c q' ≡ in_all c q + new)

later_Below :
    (t t' : Table) (w : List (ℕ × Pending))
    → Grows t t'
    → All (λ (entry : ℕ × Pending). entry.0 ≤ t.sequence) w
    → All (λ (entry : ℕ × Pending). entry.0 ≤ t'.sequence) w
later_Below t t' w grows below = All-map w (λ entry h. let up = grows_up grows in omega arith) below

settle-Accounts :
    (c : ℕ) (w : World) (env reason kind : String) (status : Status) (said : String) (channel : ℕ)
    (q : Queue)
    → Grows q.store (settle w env reason kind status said channel q).store
    → Below q
    → Accounts c (one c channel) q (settle w env reason kind status said channel q)
unfolding record_row
settle-Accounts c w env reason kind status said channel q grows below =
    (later_Below q.store _ q.waiting grows below, omega arith)

enqueue-Accounts :
    (c : ℕ) (w : World) (env reason kind : String) (timeout_s channel : ℕ) (q : Queue)
    → Below q
    → Accounts c (one c channel) q (enqueue w env reason kind timeout_s channel q)
unfolding enqueue record_row is_pending put_approval
enqueue-Accounts c w env reason kind timeout_s channel q below = held_by w.puts
  where
    held_by :
        (puts : Bool)
        → Accounts c (one c channel) q (
            hold w env reason kind timeout_s channel (
              if puts then some (suc q.store.sequence) else none,
              record q {
                store =
                    add_note w (if puts then some (suc q.store.sequence) else none) pending none (
                      if puts then put_approval w.now env reason kind pending q.store else q.store);
              },
            ))
    held_by true =
        let gone = ap (waits c) (without_above q.store.sequence q.waiting below) in
        let kept =
          All-without (λ entry. entry.0 ≤ suc q.store.sequence) (suc q.store.sequence) q.waiting
            (All-map q.waiting (λ entry h. omega arith) below) in
        ((omega arith, kept), omega (arith, gone))
    held_by false = (below, omega arith)

swept-Accounts :
    (c : ℕ) (w : World) (config : Config) (q : Queue)
    → Below q
    → Accounts c 0 q (sweep_approvals w config q)
unfolding sweep_approvals
swept-Accounts c w config q below =
    (later_Below q.store _ q.waiting (swept-Grows w config q) below, omega arith)

decide-Accounts :
    (c : ℕ) (w : World) (config : Config) (env reason kind : String) (mode : String × ℕ)
    (channel : ℕ) (q : Queue)
    → Below q
    → Accounts c (one c channel) q (decide w config env reason kind mode channel q)
unfolding decide sweep_approvals
decide-Accounts c w config env reason kind (mode, timeout_s) channel q below =
    let swept = sweep_approvals w config q in
    let below' = (swept-Accounts c w config q below).0 in
    let auto = settle w env reason kind approved reason channel swept in
    let refuse = settle w env reason kind denied "approval mode is deny" channel swept in
    let ask = enqueue w env reason kind timeout_s channel swept in
    if_both (λ q'. Accounts c (one c channel) q q') (mode == "auto") auto
      (if mode == "deny" then refuse else ask)
      (settle-Accounts c w env reason kind approved reason channel swept
        (settle-Grows w env reason kind approved reason channel swept) below')
      (if_both (λ q'. Accounts c (one c channel) q q') (mode == "deny") refuse ask
        (settle-Accounts c w env reason kind denied "approval mode is deny" channel swept
          (settle-Grows w env reason kind denied "approval mode is deny" channel swept) below')
        (enqueue-Accounts c w env reason kind timeout_s channel swept below'))

-- The callers of an entry that is taken out are those that wait no more.
taken_out :
    (c id : ℕ) (t : Table) (q : Queue)
    → Grows q.store t
    → Below q
    → All (λ (entry : ℕ × Pending). entry.0 ≤ t.sequence) (without id q.waiting)
      × (waits c q.waiting ≡ held_waits c (lookup id q.waiting) + waits c (without id q.waiting))
taken_out c id t q grows below = (
  later_Below q.store t (without id q.waiting) grows (All-without _ id q.waiting below),
  waits-without c id q.waiting,
)

release-Accounts :
    (c : ℕ) (w : World) (id : ℕ) (status : Status) (said : Option String) (t : Table) (q : Queue)
    → Grows q.store t
    → Below q
    → (held : Option Pending) → lookup id q.waiting ≡ held
    → Accounts c 0 q
        (release w id status said held (record q { store = t; waiting = without id q.waiting }))
release-Accounts c w id status said t q grows below none e =
    let (kept, count) = taken_out c id t q grows below in (kept, ground (arith, count, e))
release-Accounts c w id status said t q grows below (some p) e =
    let (kept, count) = taken_out c id t q grows below in
    let told = answered-tell c p.waiters (human_verdict id status said p) q.answers in
    (kept, ground (arith, count, e, told))

answer-Accounts :
    (c : ℕ) (w : World) (id : ℕ) (status : Status) (said : Option String) (m : Option Bool × Table)
    (q : Queue)
    → Grows q.store m.1
    → Below q
    → Accounts c 0 q (on_moved w id status said m q).1
answer-Accounts c w id status said (none, t) q grows below = (below, omega arith)
answer-Accounts c w id status said (some false, t) q grows below = (below, omega arith)
answer-Accounts c w id status said (some true, t) q grows below =
    release-Accounts c w id status said t q grows below (lookup id q.waiting) refl

expired-Accounts :
    (c : ℕ) (w : World) (id : ℕ) (q : Queue)
    → Below q
    → (held : Option Pending) → lookup id q.waiting ≡ held
    → Accounts c 0 q (expire_held w id held q)
expired-Accounts c w id q below none e = (below, omega arith)
expired-Accounts c w id q below (some p) e =
    let (kept, count) = taken_out c id _ q (move-Grows w id expired none q.store) below in
    let told = answered-tell c p.waiters (lapse_verdict id) q.answers in
    (kept, ground (arith, count, e, told))

step-Accounts :
    (c : ℕ) (config : Config) (w : World) (call : Call) (q : Queue)
    → Below q
    → Accounts c (asks c call) q (step config w call q)
unfolding approval_request gate_request approval_list approval_answer approval_expire
step-Accounts c config w (request overlay env reason kind channel) q below =
    decide-Accounts c w config env reason kind _ channel q below
step-Accounts c config w (gate env reason kind channel) q below =
    decide-Accounts c w config env reason kind _ channel q below
step-Accounts c config w (list status limit) q below = swept-Accounts c w config q below
step-Accounts c config w (answer id decision said) q below =
    answer-Accounts c w id (read_decision decision) said _ q
      (move-Grows w id (read_decision decision) said q.store) below
step-Accounts c config w (expire id) q below =
    expired-Accounts c w id q below (lookup id q.waiting) refl

-- If the ids that wait are not above the table's sequence, they stay so; and on each channel, the
-- callers that wait and the answers given are together as many more as there were requests on it,
-- whichever statements fail: no caller is dropped, and none is answered twice.
pub run-Accounts :
    (c : ℕ) (config : Config) (calls : List (World × Call)) (q : Queue)
    → Below q
    → Below (run config calls q) × (in_all c (run config calls q) ≡ in_all c q + asks_of c calls)
run-Accounts c config [] q below = (below, omega arith)
run-Accounts c config ((w, call) ∷ calls) q below =
    let (below', one_more) = step-Accounts c config w call q below in
    let (below'', rest) = run-Accounts c config calls (step config w call q) below' in
    (below'', omega (arith, one_more, rest))
