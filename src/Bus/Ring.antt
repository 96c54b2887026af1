-- ===== src/Bus/Ring.antt =====
-- The bounded ring of one subscriber (rs/bus/src/ring.rs). The mutex makes each method one step;
-- a ring is its queue, oldest first, and its counters.
pub mod Bounds
pub mod Loss
pub mod Latest
use tenon.Prelude.{
  ℕ, ◌+◌, max, String, Bool, true, false, not, ◌&&◌, Option, none, some, List, [], ◌∷◌, ◌++◌, ◌==◌,
  String_eq, length, retain, is_empty, leb, ltb, if◌then◌else◌,
}
use tenon.Bus.Envelope.{Envelope, compaction_key}

-- A published envelope with its log offset. The encoded bytes are a function of the envelope.
pub record Published : Type 0 where
  pub envelope : Envelope
  pub offset : ℕ

pub record Ring : Type 0 where
  pub queue : List Published
  pub dropped : ℕ
  pub alive : Bool
  pub dropped_total : ℕ
  pub cap : ℕ
  pub latest_only : Bool

unfoldable pub new : ℕ → Bool → Ring
new cap latest_only = record {
  queue = [];
  dropped = 0;
  alive = true;
  dropped_total = 0;
  cap = max cap 1;
  latest_only = latest_only;
}

-- `queue.pop_front()`
abbrev pub pop_front : List Published → List Published
pop_front [] = []
pop_front (m ∷ ms) = ms

abbrev pub key_of : Published → String
key_of m = compaction_key m.envelope

unfoldable pub push : Ring → Published → Ring
push r msg =
    if r.latest_only
    then record r { queue = retain (λ m. not (key_of m == key_of msg)) r.queue ++ msg ∷ [] }
    else if leb r.cap (length r.queue) && not msg.envelope.durable
    then record r {
      queue = pop_front r.queue ++ msg ∷ [];
      dropped = r.dropped + 1;
      dropped_total = r.dropped_total + 1;
    }
    else record r { queue = r.queue ++ msg ∷ [] }

unfoldable pub drain : Ring → Ring × List Published
drain r = (record r { queue = []; dropped = 0 }, r.queue)

unfoldable pub close : Ring → Ring
close r = record r { alive = false }

-- `coalesce_ms.filter(|ms| *ms > 0)`: a window of no length is no window.
unfoldable pub coalesce : Option ℕ → Option ℕ
coalesce none = none
coalesce (some ms) = if ltb 0 ms then some ms else none

-- What one round of the loop of `recv` comes to.
pub data Received : Type 0 where
  batch : List Published → Received
  closed : Received
  waiting : Received

-- One round of `recv`, from the test of the ring on: `late` is what is pushed while it sleeps the
-- coalescing window, if it has one.
unfoldable pub push_all : Ring → List Published → Ring
push_all r [] = r
push_all r (m ∷ ms) = push_all (push r m) ms

abbrev slept : Option ℕ → List Published → Ring → Ring
slept none late r = r
slept (some window) late r = push_all r late

unfoldable pub recv_round : Option ℕ → List Published → Ring → Ring × Received
recv_round window late r =
    if not (is_empty r.queue)
    then (let (r', taken) = drain (slept window late r) in
        if is_empty taken
        then (if r'.alive then (r', waiting) else (r', closed))
        else (r', batch taken))
    else if r.alive
    then (r, waiting)
    else (r, closed)
