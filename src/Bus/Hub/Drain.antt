-- ===== src/Bus/Hub/Drain.antt =====
-- The queue of publishers, commit by commit (`writer_loop` of rs/bus/src/hub.rs).
use tenon.Prelude.{
  ℕ, zero, suc, ◌+◌, ◌-◌, ◌≤◌, max, min, ◌≡◌, refl, ap, ◌∙◌, Option, none, some, List, [], ◌∷◌,
  length, take, drop, arith, length-append, map,
}
use tenon.Prelude.Int.{ℤ}
use tenon.Bus.Ring.{Published}
use tenon.Bus.Hub.{Hub, Job, batch_max, fan_out, prune}
use tenon.Bus.Hub.Subscribe.{Durable}
use tenon.Bus.Hub.Commit.{publish_jobs, commit, answer, offsets_of}
use tenon.Bus.Hub.Answers.{answers, offset_at, publish_jobs-replies, batch_of}

jobs-fan_out : (now : ℤ) (msg : Published) (h : Hub) → (fan_out now msg h).jobs ≡ h.jobs
unfolding fan_out prune
jobs-fan_out now msg h = ground arith

publish_jobs-jobs :
    (clock : ℕ → ℤ) (offsets : List ℕ) (index : ℕ) (jobs : List Job) (h : Hub)
    → (publish_jobs clock offsets index jobs h).jobs ≡ h.jobs
unfolding publish_jobs
publish_jobs-jobs clock offsets index [] h = refl
publish_jobs-jobs clock offsets index (job ∷ jobs) h =
    publish_jobs-jobs clock offsets (index + 1) jobs _ ∙ jobs-fan_out (clock index) _ h

abbrev asks_one : Option ℕ → ℕ
asks_one none = 0
asks_one (some c) = 1

-- How many of the jobs have a publisher that waits.
abbrev pub asking : List Job → ℕ
asking [] = 0
asking (job ∷ jobs) = asks_one job.reply + asking jobs

length-answer : (reply : Option ℕ) (o : ℕ) → length (answer reply o []) ≡ asks_one reply
length-answer none o = refl
length-answer (some c) o = refl

length-answers :
    (offsets : List ℕ) (index : ℕ) (jobs : List Job)
    → length (answers offsets index jobs) ≡ asking jobs
length-answers offsets index [] = refl
length-answers offsets index (job ∷ jobs) = omega (
  arith,
  length-append (answer job.reply (offset_at offsets index) []) (answers offsets (index + 1) jobs),
  length-answer job.reply (offset_at offsets index),
  length-answers offsets (index + 1) jobs,
)

asking-split : (n : ℕ) (jobs : List Job) → asking (take n jobs) + asking (drop n jobs) ≡ asking jobs
asking-split zero jobs = omega arith
asking-split (suc n) [] = omega arith
asking-split (suc n) (job ∷ jobs) = omega (arith, asking-split n jobs)

no_jobs : (jobs : List Job) → length jobs ≤ 0 → (length jobs ≡ 0) × (asking jobs ≡ 0)
no_jobs [] h = (refl, refl)
no_jobs (job ∷ jobs) h = absurd (omega (arith, h))

length-drop : (n : ℕ) (jobs : List Job) → length (drop n jobs) ≡ length jobs - n
length-drop zero jobs = omega arith
length-drop (suc n) [] = omega arith
length-drop (suc n) (job ∷ jobs) = omega (arith, length-drop n jobs)

round_with :
    (clock : ℕ → ℤ) (offsets : List ℕ) (arrived top : ℕ) (h : Hub)
    → ((publish_jobs clock offsets 0
          (batch_of arrived h)
          (record h { jobs = drop (max 1 (min arrived batch_max)) h.jobs; max_offset = top })).jobs
        ≡ drop (max 1 (min arrived batch_max)) h.jobs)
      × (length
            (publish_jobs clock offsets 0 (batch_of arrived h) (record h {
              jobs = drop (max 1 (min arrived batch_max)) h.jobs;
              max_offset = top;
            })).replies
          ≡ length h.replies + asking (batch_of arrived h))
round_with clock offsets arrived top h =
    let batch = batch_of arrived h in
    let begun : Hub = record h {
      jobs = drop (max 1 (min arrived batch_max)) h.jobs;
      max_offset = top;
    } in
    (
      publish_jobs-jobs clock offsets 0 batch begun,
      ap length (publish_jobs-replies clock offsets 0 batch begun)
          ∙ length-append h.replies (answers offsets 0 batch)
          ∙ ap (λ n. length h.replies + n) (length-answers offsets 0 batch),
    )

module _ (d : Durable) where
  open d use {Log}

  -- Rounds of the writer, each with its clock and the number of jobs that had come.
  abbrev pub rounds : List ((ℕ → ℤ) × ℕ) → Option Log → Hub → Hub
  rounds [] log h = h
  rounds ((clock, arrived) ∷ more) log h =
      let (log', h') = commit d clock arrived log h in rounds more log' h'

  one_round :
      (clock : ℕ → ℤ) (arrived : ℕ) (log : Option Log) (h : Hub)
      → ((commit d clock arrived log h).1.jobs ≡ drop (max 1 (min arrived batch_max)) h.jobs)
        × (length (commit d clock arrived log h).1.replies
            ≡ length h.replies + asking (batch_of arrived h))
  unfolding commit
  one_round clock arrived none h = round_with clock [] arrived _ h
  one_round clock arrived (some log) h =
      round_with clock
        (offsets_of (d.append_batch log (map (λ (j : Job). j.envelope) (batch_of arrived h))).0)
        arrived _ h

  -- The writer empties its queue in as many rounds as it holds jobs, or more, however few jobs each
  -- round finds to have come and whether or not its appends succeed; and by then it has sent as
  -- many answers as there were publishers in the queue that wait.
  pub rounds_drain :
      (more : List ((ℕ → ℤ) × ℕ)) (log : Option Log) (h : Hub)
      → length h.jobs ≤ length more
      → (length (rounds more log h).jobs ≡ 0)
        × (length (rounds more log h).replies ≡ length h.replies + asking h.jobs)
  rounds_drain [] log h enough =
      let (none_left, none_ask) = no_jobs h.jobs (omega arith) in
      (none_left, omega (arith, none_ask))
  rounds_drain ((clock, arrived) ∷ more) log h enough =
      let (jobs, sent) = one_round clock arrived log h in
      let taken = max 1 (min arrived batch_max) in
      let fewer = ap length jobs ∙ length-drop taken h.jobs in
      let split = asking-split taken h.jobs in
      let asks = ap asking jobs in
      let (empty, all_sent) =
        rounds_drain more (commit d clock arrived log h).0 (commit d clock arrived log h).1
          (omega (arith, fewer, enough)) in
      (empty, omega (arith, all_sent, sent, asks, split))
