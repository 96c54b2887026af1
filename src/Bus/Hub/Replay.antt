-- ===== src/Bus/Hub/Replay.antt =====
-- A replay and the live stream after it (rs/bus/src/hub.rs): what each of them hands over.
use tenon.Prelude.{
  ℕ, Bool, true, not, ◌&&◌, ◌≡◌, refl, ◌∙◌, some, List, [], ◌∷◌, ◌++◌, map, ℕ_eq, leb, ltb, length,
  get_elem?, retain, arith, if◌then◌else◌, ap, ok,
}
use tenon.Prelude.Int.{ℤ}
use tenon.Bus.Envelope.{Envelope, is_expired}
use tenon.Bus.Filter.{Filter, matches}
use tenon.Bus.Ring
use tenon.Bus.Ring.{Ring, Published, push_all}
use tenon.Bus.Hub.{Hub, SubEntry, is_alive, fan_out, replay_max}
use tenon.Bus.Hub.Delivery.{fan_out-delivers, alive-push}
use tenon.Bus.Hub.Subscribe.{Durable, SubOpts, replay, missed, fresh_ring, subscribe}
use tenon.Bus.Hub.Sound.{IsSound}
use tenon.Bus.Hub.Reach.{subscribe-IsSound}

abbrev pub published : ℕ × Envelope → Published
published (offset, e) = record { envelope = e; offset = offset }

-- The rows that a replay at `now` hands over: up to the ceiling, not expired, and passed by the
-- filter.
abbrev pub covered : ℤ → ℕ → Filter → ℕ × Envelope → Bool
covered now ceiling f (offset, e) = leb offset ceiling && not (is_expired e now) && matches f e

replay-push_all :
    (now : ℤ) (ceiling : ℕ) (f : Filter) (rows : List (ℕ × Envelope)) (r : Ring)
    → replay now ceiling f rows r ≡ push_all r (map published (retain (covered now ceiling f) rows))
unfolding replay push_all
replay-push_all now ceiling f [] r = refl
replay-push_all now ceiling f ((o, e) ∷ rows) r = ground (
  arith,
  replay-push_all now ceiling f rows r,
  replay-push_all now ceiling f rows (Ring.push r (record { envelope = e; offset = o })),
)

alive-push_all : (r : Ring) (ms : List Published) → (push_all r ms).alive ≡ r.alive
unfolding push_all
alive-push_all r [] = refl
alive-push_all r (m ∷ ms) = alive-push_all (Ring.push r m) ms ∙ alive-push r m

get_elem?-last : (xs : List SubEntry) (x : SubEntry) → get_elem? (xs ++ x ∷ []) (length xs) ≡ some x
get_elem?-last [] x = refl
get_elem?-last (y ∷ xs) x = get_elem?-last xs x

module _ (d : Durable) (ceiling : ℕ) (now : ℤ) (f : Filter) (opts : SubOpts) (log : d.Log)
    (h : Hub) where
  -- The ring of a new subscriber into which these rows have been replayed.
  abbrev pub replayed_ring : List (ℕ × Envelope) → Ring
  replayed_ring rows =
      push_all (fresh_ring opts) (map published (retain (covered now ceiling f) rows))

  ring-subscribe :
      (subscribe d ceiling now f opts (some log) h).1.rings h.next_ring
      ≡ replayed_ring (missed d (some log) opts.since_offset)
  unfolding subscribe
  ring-subscribe = ground (
    arith,
    replay-push_all now ceiling f (missed d (some log) opts.since_offset) (fresh_ring opts),
  )

  rows-missed :
      (after : ℤ) (rows : List (ℕ × Envelope))
      → opts.since_offset ≡ some after
      → d.since log after replay_max ≡ ok rows
      → missed d (some log) opts.since_offset ≡ rows
  rows-missed after rows asked answer = rw (asked, answer) refl

  abbrev entry : SubEntry
  entry = record { filter = f; ring = h.next_ring; since_max = ceiling }

  entry-subscribe :
      get_elem?
        (subscribe d ceiling now f opts (some log) h).1.subs
        (length (retain (is_alive h) h.subs))
      ≡ some entry
  unfolding subscribe
  entry-subscribe = get_elem?-last (retain (is_alive h) h.subs) entry

  alive-replayed : (rows : List (ℕ × Envelope)) → (replayed_ring rows).alive ≡ true
  alive-replayed rows = alive-push_all (fresh_ring opts) _ ∙ (unfold Ring.new in refl)

  -- A subscription to a sound hub that asks for what lies after an offset, and whose log answers
  -- with `rows` (it is asked for at most `replay_max` of them): pushed into its ring are, in their
  -- order, exactly the rows up to the offset that it has read as the highest, less the expired ones
  -- and those that the filter does not pass; and of what is fanned out first after it was entered,
  -- it gets exactly what lies above that same offset or has none, is not expired and passes the
  -- filter: no row comes by both ways.
  pub subscribe-then-fan_out :
      (later : ℤ) (msg : Published) (after : ℤ) (rows : List (ℕ × Envelope))
      → IsSound h
      → opts.since_offset ≡ some after
      → d.since log after replay_max ≡ ok rows
      → ((subscribe d ceiling now f opts (some log) h).1.rings h.next_ring ≡ replayed_ring rows)
        × ((fan_out later msg (subscribe d ceiling now f opts (some log) h).1).rings h.next_ring ≡ (
            if not (is_expired msg.envelope later)
              && not (ltb 0 msg.offset && leb msg.offset ceiling)
              && matches f msg.envelope
            then Ring.push (replayed_ring rows) msg
            else replayed_ring rows))
  subscribe-then-fan_out later msg after rows s asked answer =
      let h' = (subscribe d ceiling now f opts (some log) h).1 in
      let delivered =
        (fan_out-delivers later msg h' (length (retain (is_alive h) h.subs)) entry
          (subscribe-IsSound d ceiling now f opts (some log) h s).owns entry-subscribe).0 in
      let ring = ring-subscribe ∙ ap replayed_ring (rows-missed after rows asked answer) in
      (ring, delivered ∙ ground (arith, ring, alive-replayed rows))
