-- ===== src/Bus/Hub/Answers.antt =====
-- What the publishers that wait for a commit are told (`writer_loop` of rs/bus/src/hub.rs).
use tenon.Prelude.{
  ℕ, zero, suc, ◌+◌, ◌≤◌, max, min, ◌≡◌, refl, sym, ap, ◌∙◌, Option, none, some, List, [], ◌∷◌,
  ◌++◌, map, append-nil, append_assoc, get_elem?, take, drop, All, Result, err, arith,
}
use tenon.Prelude.Int.{ℤ}
use tenon.Bus.Ring.{Published}
use tenon.Bus.Hub.{Hub, Job, batch_max, fan_out, prune}
use tenon.Bus.Hub.Subscribe.{Durable}
use tenon.Bus.Hub.Commit.{publish_jobs, commit, offsets_of, raise_to, answer, get_or}

replies-fan_out : (now : ℤ) (msg : Published) (h : Hub) → (fan_out now msg h).replies ≡ h.replies
unfolding fan_out prune
replies-fan_out now msg h = ground arith

max_offset-fan_out :
    (now : ℤ) (msg : Published) (h : Hub) → (fan_out now msg h).max_offset ≡ h.max_offset
unfolding fan_out prune
max_offset-fan_out now msg h = ground arith

-- The offset of the job at each place of the batch; 0 where the log gave none.
abbrev pub offset_at : List ℕ → ℕ → ℕ
offset_at [] i = 0
offset_at (o ∷ offsets) zero = o
offset_at (o ∷ offsets) (suc i) = offset_at offsets i

abbrev pub answers : List ℕ → ℕ → List Job → List (ℕ × ℕ)
answers offsets index [] = []
answers offsets index (job ∷ jobs) =
    answer job.reply (offset_at offsets index) [] ++ answers offsets (index + 1) jobs

offset_at-get : (offsets : List ℕ) (i : ℕ) → get_or (get_elem? offsets i) 0 ≡ offset_at offsets i
offset_at-get [] i = refl
offset_at-get (o ∷ offsets) zero = refl
offset_at-get (o ∷ offsets) (suc i) = offset_at-get offsets i

answer-append :
    (reply : Option ℕ) (o : ℕ) (rs : List (ℕ × ℕ)) → answer reply o rs ≡ rs ++ answer reply o []
answer-append none o rs = sym (append-nil rs)
answer-append (some c) o rs = refl

pub publish_jobs-replies :
    (clock : ℕ → ℤ) (offsets : List ℕ) (index : ℕ) (jobs : List Job) (h : Hub)
    → (publish_jobs clock offsets index jobs h).replies ≡ h.replies ++ answers offsets index jobs
unfolding publish_jobs
publish_jobs-replies clock offsets index [] h = sym (append-nil h.replies)
publish_jobs-replies clock offsets index (job ∷ jobs) h =
    let told = answer job.reply (offset_at offsets index) [] in
    let step =
      answer-append job.reply _ (fan_out (clock index) _ h).replies
      ∙ ap (λ rs. rs ++ answer job.reply (get_or (get_elem? offsets index) 0) [])
          (replies-fan_out (clock index) _ h)
      ∙ ap (λ o. h.replies ++ answer job.reply o []) (offset_at-get offsets index) in
    publish_jobs-replies clock offsets (index + 1) jobs _
    ∙ ap (λ rs. rs ++ answers offsets (index + 1) jobs) step
    ∙ append_assoc h.replies told (answers offsets (index + 1) jobs)

publish_jobs-max_offset :
    (clock : ℕ → ℤ) (offsets : List ℕ) (index : ℕ) (jobs : List Job) (h : Hub)
    → (publish_jobs clock offsets index jobs h).max_offset ≡ h.max_offset
unfolding publish_jobs
publish_jobs-max_offset clock offsets index [] h = refl
publish_jobs-max_offset clock offsets index (job ∷ jobs) h =
    publish_jobs-max_offset clock offsets (index + 1) jobs _ ∙ max_offset-fan_out (clock index) _ h

raise_to_bounds :
    (top : ℕ) (offsets : List ℕ)
    → (top ≤ raise_to top offsets) × All (λ o. o ≤ raise_to top offsets) offsets
raise_to_bounds top [] = (omega arith, tt)
raise_to_bounds top (o ∷ offsets) =
    let (above, each) = raise_to_bounds (max top o) offsets in (omega arith, (omega arith, each))

-- The jobs of one group commit, when `arrived` had come as its window closed.
abbrev pub batch_of : ℕ → Hub → List Job
batch_of arrived h = take (max 1 (min arrived batch_max)) h.jobs

module _ (d : Durable) (clock : ℕ → ℤ) (arrived : ℕ) (log : d.Log) (h : Hub) where
  abbrev pub appended : Result Unit (List ℕ) × d.Log
  appended = d.append_batch log (map (λ (j : Job). j.envelope) (batch_of arrived h))

  -- A commit answers each publisher of its batch, in order, with the offset that the log gave to
  -- the row at the same place, and with 0 if the log gave none; and afterwards the highest offset
  -- is no lower than before and no lower than any of the batch.
  pub commit-answers :
      ((commit d clock arrived (some log) h).1.replies
        ≡ h.replies ++ answers (offsets_of appended.0) 0 (batch_of arrived h))
      × (h.max_offset ≤ (commit d clock arrived (some log) h).1.max_offset)
      × All (λ o. o ≤ (commit d clock arrived (some log) h).1.max_offset) (offsets_of appended.0)
  unfolding commit
  commit-answers =
      let offsets = offsets_of appended.0 in
      let begun : Hub = record h {
        jobs = drop (max 1 (min arrived batch_max)) h.jobs;
        max_offset = raise_to h.max_offset offsets;
      } in
      let top = publish_jobs-max_offset clock offsets 0 (batch_of arrived h) begun in
      let (above, each) = raise_to_bounds h.max_offset offsets in
      (publish_jobs-replies clock offsets 0 (batch_of arrived h) begun, rw top above, rw top each)

zero_then :
    (reply : Option ℕ) (rest : List (ℕ × ℕ))
    → All (λ (r : ℕ × ℕ). r.1 ≡ 0) rest
    → All (λ (r : ℕ × ℕ). r.1 ≡ 0) (answer reply 0 [] ++ rest)
zero_then none rest h = h
zero_then (some c) rest h = (refl, h)

All-zero : (index : ℕ) (jobs : List Job) → All (λ (r : ℕ × ℕ). r.1 ≡ 0) (answers [] index jobs)
All-zero index [] = tt
All-zero index (job ∷ jobs) = zero_then job.reply _ (All-zero (index + 1) jobs)

-- If the append fails, every publisher of the batch that waits is answered all the same, and with
-- the offset 0.
pub commit_failed :
    (d : Durable) (clock : ℕ → ℤ) (arrived : ℕ) (log : d.Log) (h : Hub)
    → (appended d clock arrived log h).0 ≡ err tt
    → ((commit d clock arrived (some log) h).1.replies
        ≡ h.replies ++ answers [] 0 (batch_of arrived h))
      × All (λ (r : ℕ × ℕ). r.1 ≡ 0) (answers [] 0 (batch_of arrived h))
commit_failed d clock arrived log h failed = (
  (commit-answers d clock arrived log h).0
      ∙ ap (λ r. h.replies ++ answers (offsets_of r) 0 (batch_of arrived h)) failed,
  All-zero 0 (batch_of arrived h),
)
