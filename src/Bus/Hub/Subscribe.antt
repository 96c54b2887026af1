-- ===== src/Bus/Hub/Subscribe.antt =====
-- `Hub::subscribe` (rs/bus/src/hub.rs), the interface of the durable log, and the end of a
-- subscription.
use tenon.Prelude.{
  ℕ, ◌+◌, Bool, Option, none, some, List, [], ◌∷◌, ◌++◌, retain, length, ltb, Result, ok, err,
  if◌then◌else◌,
}
use tenon.Prelude.Int.{ℤ}
use tenon.Bus.Envelope.{Envelope, is_expired}
use tenon.Bus.Filter.{Filter, matches}
use tenon.Bus.Ring
use tenon.Bus.Ring.{Ring, Published}
use tenon.Bus.Hub.{Hub, SubEntry, default_cap, replay_max, update, is_alive}

-- The trait `Durable`, which the host provides: a log with an append that returns the offset of
-- each row, a replay of what lies after an offset, and the highest offset.
pub record Durable : Type 1 where
  pub Log : Type 0
  pub append_batch : Log → List Envelope → Result Unit (List ℕ) × Log
  pub since : Log → ℤ → ℕ → Result Unit (List (ℕ × Envelope))
  pub head : Log → ℕ

pub record SubOpts : Type 0 where
  pub since_offset : Option ℤ
  pub coalesce_ms : Option ℕ
  pub latest_only : Bool
  pub capacity : Option ℕ

-- The handle of a subscriber: its ring and its coalescing window.
pub record Subscription : Type 0 where
  pub ring : ℕ
  pub window : Option ℕ

abbrev get_or : Option ℕ → ℕ → ℕ
get_or none d = d
get_or (some n) d = n

abbrev pub fresh_ring : SubOpts → Ring
fresh_ring opts = Ring.new (get_or opts.capacity default_cap) opts.latest_only

-- The rows of a replay that go into the ring.
unfoldable pub replay : ℤ → ℕ → Filter → List (ℕ × Envelope) → Ring → Ring
replay now ceiling filter [] r = r
replay now ceiling filter ((offset, e) ∷ rows) r = replay now ceiling filter rows (
    if ltb ceiling offset
    then r
    else if is_expired e now
    then r
    else if matches filter e
    then Ring.push r (record { envelope = e; offset = offset })
    else r)

abbrev pub rows_of : Result Unit (List (ℕ × Envelope)) → List (ℕ × Envelope)
rows_of (ok rows) = rows
rows_of (err e) = []

module _ (d : Durable) where
  open d use {Log, since}

  -- What there is to replay: nothing if no offset is asked for, if there is no log, or if it
  -- cannot be read.
  abbrev pub missed : Option Log → Option ℤ → List (ℕ × Envelope)
  missed none after = []
  missed (some log) none = []
  missed (some log) (some after) = rows_of (since log after replay_max)

  -- `ceiling` is the highest offset as the call has read it, which it does before it takes the lock
  -- and enters the subscriber. That it enters it and replays is one step here.
  unfoldable pub subscribe : ℕ → ℤ → Filter → SubOpts → Option Log → Hub → Subscription × Hub
  unfolding replay
  subscribe ceiling now filter opts log h =
      let entry : SubEntry = record { filter = filter; ring = h.next_ring; since_max = ceiling } in
      (
        record { ring = h.next_ring; window = Ring.coalesce opts.coalesce_ms },
        record h {
          subs = retain (is_alive h) h.subs ++ entry ∷ [];
          rings =
              update h.rings h.next_ring
                (replay now ceiling filter (missed log opts.since_offset) (fresh_ring opts));
          next_ring = h.next_ring + 1;
        },
      )

-- `Subscription` is dropped: its ring is closed.
unfoldable pub drop_subscription : Subscription → Hub → Hub
drop_subscription s h = record h { rings = update h.rings s.ring (Ring.close (h.rings s.ring)) }

-- One round of `recv` on the hub's store of rings, from the end of its window on. What arrives
-- while it sleeps the window is other steps before this one.
unfoldable pub recv : Subscription → Hub → Ring.Received × Hub
recv s h =
    let (r, got) = Ring.recv_round none [] (h.rings s.ring) in
    (got, record h { rings = update h.rings s.ring r })

unfoldable pub subscriber_count : Hub → ℕ
subscriber_count h = length (retain (is_alive h) h.subs)
