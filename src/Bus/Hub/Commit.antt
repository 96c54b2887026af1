-- ===== src/Bus/Hub/Commit.antt =====
-- The writer task (`writer_loop` of rs/bus/src/hub.rs): one group commit is one step. How many
-- jobs had come when the commit window closed is an argument, and `clock` is the time at which
-- each of them is fanned out.
use tenon.Prelude.{
  ℕ, ◌+◌, max, min, Option, none, some, List, [], ◌∷◌, ◌++◌, map, get_elem?, take, drop, Result, ok,
  err,
}
use tenon.Prelude.Int.{ℤ}
use tenon.Bus.Envelope.{Envelope}
use tenon.Bus.Hub.{Hub, Job, batch_max, fan_out}
use tenon.Bus.Hub.Subscribe.{Durable}

-- `unwrap_or_default` on the offsets of an append.
abbrev pub offsets_of : Result Unit (List ℕ) → List ℕ
offsets_of (ok offsets) = offsets
offsets_of (err e) = []

-- `max_offset.fetch_max(top)` with the highest of the offsets, if there is one.
abbrev pub raise_to : ℕ → List ℕ → ℕ
raise_to top [] = top
raise_to top (o ∷ offsets) = raise_to (max top o) offsets

abbrev pub get_or : Option ℕ → ℕ → ℕ
get_or none d = d
get_or (some n) d = n

abbrev pub answer : Option ℕ → ℕ → List (ℕ × ℕ) → List (ℕ × ℕ)
answer none offset replies = replies
answer (some channel) offset replies = replies ++ (channel, offset) ∷ []

-- `for (index, job) in jobs.into_iter().enumerate()`
unfoldable pub publish_jobs : (ℕ → ℤ) → List ℕ → ℕ → List Job → Hub → Hub
publish_jobs clock offsets index [] h = h
publish_jobs clock offsets index (job ∷ jobs) h =
    let offset = get_or (get_elem? offsets index) 0 in
    let h' = fan_out (clock index) (record { envelope = job.envelope; offset = offset }) h in
    publish_jobs clock offsets (index + 1) jobs
      (record h' { replies = answer job.reply offset h'.replies })

module _ (d : Durable) where
  open d use {Log, append_batch}

  -- The log of a hub that has one, and of one that has none.
  abbrev append : Option Log → List Envelope → List ℕ × Option Log
  append none batch = ([], none)
  append (some log) batch = let (r, log') = append_batch log batch in (offsets_of r, some log')

  -- One round of the loop: at least one job, at most `batch_max`, in the order of their sending.
  unfoldable pub commit : (ℕ → ℤ) → ℕ → Option Log → Hub → Option Log × Hub
  commit clock arrived log h =
      let batch = take (max 1 (min arrived batch_max)) h.jobs in
      let rest = drop (max 1 (min arrived batch_max)) h.jobs in
      let (offsets, log') = append log (map (λ (j : Job). j.envelope) batch) in
      (
        log',
        publish_jobs clock offsets 0 batch
            (record h { jobs = rest; max_offset = raise_to h.max_offset offsets }),
      )
