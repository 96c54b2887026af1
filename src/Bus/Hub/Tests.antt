-- ===== src/Bus/Hub/Tests.antt =====
-- Runs of the hub over a log in memory.
use tenon.Prelude.{
  ℕ, ◌+◌, ◌≤◌, false, not, ◌&&◌, ◌≡◌, refl, none, some, List, [], ◌∷◌, ◌++◌, length, take, retain,
  All, ltb, leb, arith, ok, err, if◌then◌else◌,
}
use tenon.Prelude.Int.{pos, ltb_ℤ}
use tenon.Bus.Envelope.{Envelope, normalize, is_expired}
use tenon.Bus.Filter
use tenon.Bus.Filter.{Filter, matches}
use tenon.Bus.Ring
use tenon.Bus.Ring.{Ring, Published}
use tenon.Bus.Tests.{start_event, done_event, done_message}
use tenon.Bus.Hub
use tenon.Bus.Hub.{Hub, SubEntry, Job, Writer, is_alive, emit, fan_out}
use tenon.Bus.Hub.Subscribe.{Durable, SubOpts, subscribe}
use tenon.Bus.Hub.Commit.{commit}
use tenon.Bus.Hub.Delivery.{takes, fan_out-delivers}
use tenon.Bus.Hub.Reach.{start, next, emits, subscribes, Reach-isolates}
use tenon.Bus.Hub.Replay.{replayed_ring, subscribe-then-fan_out}
use tenon.Bus.Hub.Drain.{rounds, asking, rounds_drain}
use tenon.Bus.Hub.Answers.{commit-answers, commit_failed}

abbrev MemoryLog : Type 0
MemoryLog = List (ℕ × Envelope)

abbrev offsets_from : ℕ → List Envelope → List ℕ
offsets_from n [] = []
offsets_from n (e ∷ es) = n ∷ offsets_from (n + 1) es

abbrev rows_from : ℕ → List Envelope → MemoryLog
rows_from n [] = []
rows_from n (e ∷ es) = (n, e) ∷ rows_from (n + 1) es

-- A log that numbers its rows from 1.
abbrev memory : Durable
memory = record {
  Log = MemoryLog;
  append_batch =
      λ log es. (ok (offsets_from (length log + 1) es), log ++ rows_from (length log + 1) es);
  since = λ log after limit. ok (take limit (retain (λ row. ltb_ℤ after (pos row.0)) log));
  head = length;
}

-- A log whose disk is full.
abbrev full_disk : Durable
full_disk = record {
  Log = Unit;
  append_batch = λ log es. (err tt, log);
  since = λ log after limit. ok [];
  head = λ log. 0;
}

abbrev blue_entry : SubEntry
blue_entry = record { filter = Filter.scoped_to "blue"; ring = 0; since_max = 0 }

abbrev all_entry : SubEntry
all_entry = record { filter = Filter.all; ring = 1; since_max = 4 }

abbrev two_subscribers : Hub
two_subscribers = record {
  subs = blue_entry ∷ all_entry ∷ [];
  rings = λ i. Ring.new 4 false;
  next_ring = 2;
  writer = Writer.running;
  jobs = record { envelope = done_event; reply = some 7 } ∷ [];
  max_offset = 4;
  secrets = [];
  next_reply = 8;
  replies = [];
}

fan_out_example :
    ((fan_out (pos 9) done_message two_subscribers).rings 0 ≡ (
      if not (is_expired done_event (pos 9)) && takes blue_entry done_message (Ring.new 4 false)
      then Ring.push (Ring.new 4 false) done_message
      else Ring.new 4 false))
    × ((fan_out (pos 9) done_message two_subscribers).subs ≡ (
        if is_expired done_event (pos 9)
        then two_subscribers.subs
        else retain (is_alive two_subscribers) two_subscribers.subs))
fan_out_example =
    fan_out-delivers (pos 9) done_message two_subscribers 0 blue_entry
      (omega arith, (λ e. absurd (omega (arith, e)), tt), (omega arith, tt, tt)) refl

abbrev live_opts : SubOpts
live_opts = record { since_offset = none; coalesce_ms = none; latest_only = false; capacity = none }

abbrev blue_subscribed : Hub
blue_subscribed =
    (subscribe memory 0 (pos 8) (Filter.scoped_to "blue") live_opts none
      (Hub.new Writer.absent 0)).1

isolates_example :
    All
      (λ m. m.envelope.env ≡ some "blue")
      ((emit (pos 9) "f" "g" start_event blue_subscribed).rings 0).queue
unfolding emit Hub.guard normalize fan_out Hub.deliver_all Hub.deliver is_expired subscribe Hub.new
    Ring.new
isolates_example =
    Reach-isolates memory (emit (pos 9) "f" "g" start_event blue_subscribed) 0 blue_entry "blue"
      (next
        (next (start Writer.absent 0)
          (subscribes 0 (pos 8) (Filter.scoped_to "blue") live_opts none refl))
        (emits (pos 9) "f" "g" start_event refl))
      refl refl

-- A log of three rows, the last of which lies above what the subscriber has read as the highest.
abbrev three_rows : MemoryLog
three_rows = rows_from 3 (done_event ∷ done_event ∷ start_event ∷ [])

abbrev from_three : SubOpts
from_three = record live_opts { since_offset = some (pos 3) }

abbrev caught_up : Hub
caught_up = (subscribe memory 4 (pos 8) Filter.all from_three (some three_rows) two_subscribers).1

abbrev missed_ring : Ring
missed_ring =
    replayed_ring memory 4 (pos 8) Filter.all from_three three_rows two_subscribers
      ((4, done_event) ∷ (5, start_event) ∷ [])

replay_example :
    (caught_up.rings 2 ≡ missed_ring)
    × ((fan_out (pos 9) done_message caught_up).rings 2 ≡ (
        if not (is_expired done_event (pos 9))
          && not (ltb 0 4 && leb 4 4)
          && matches Filter.all done_event
        then Ring.push missed_ring done_message
        else missed_ring))
unfolding Ring.new
replay_example =
    subscribe-then-fan_out memory 4 (pos 8) Filter.all from_three three_rows two_subscribers (pos 9)
      done_message (pos 3) ((4, done_event) ∷ (5, start_event) ∷ [])
      (record {
        owns = (omega arith, (λ e. absurd (omega (arith, e)), tt), (omega arith, tt, tt));
        filtered = (tt, (tt, tt));
      })
      refl refl

answers_example :
    ((commit memory (λ i. pos 9) 1 (some []) two_subscribers).1.replies ≡ (7, 1) ∷ [])
    × (4 ≤ (commit memory (λ i. pos 9) 1 (some []) two_subscribers).1.max_offset)
    × All (λ o. o ≤ (commit memory (λ i. pos 9) 1 (some []) two_subscribers).1.max_offset) (1 ∷ [])
answers_example = commit-answers memory (λ i. pos 9) 1 [] two_subscribers

failed_example :
    ((commit full_disk (λ i. pos 9) 1 (some tt) two_subscribers).1.replies ≡ (7, 0) ∷ [])
    × All (λ (r : ℕ × ℕ). r.1 ≡ 0) ((7, 0) ∷ [])
failed_example = commit_failed full_disk (λ i. pos 9) 1 tt two_subscribers refl

drain_example :
    (length (rounds memory ((λ i. pos 9, 1) ∷ []) (some []) two_subscribers).jobs ≡ 0)
    × (length (rounds memory ((λ i. pos 9, 1) ∷ []) (some []) two_subscribers).replies
        ≡ length two_subscribers.replies + asking two_subscribers.jobs)
drain_example = rounds_drain memory ((λ i. pos 9, 1) ∷ []) (some []) two_subscribers (omega arith)
