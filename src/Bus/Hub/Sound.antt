-- ===== src/Bus/Hub/Sound.antt =====
-- The invariant of a hub: rings are not shared, and every message that waits in a subscriber's
-- ring passed that subscriber's filter. Each operation keeps it.
use tenon.Prelude.{
  ℕ, String, Bool, true, not, ◌≡◌, ◌≢◌, refl, Option, none, some, List, [], ◌∷◌, ◌==◌, ℕ_eq,
  String_eq, get_elem?, is_empty, retain, All, All-append, All-retain, All-at, All-of_at, Result,
  ok, err, arith, if_both, Bool-cases, inl, inr,
}
use tenon.Prelude.Int.{ℤ}
use tenon.Bus.Envelope.{Envelope, is_expired, normalize}
use tenon.Json.{Value}
use tenon.Bus.Tags.{Tags}
use tenon.Bus.Filter.{Filter, matches}
use tenon.Bus.Ring
use tenon.Bus.Ring.{Ring, Published}
use tenon.Bus.Hub.{
  Hub, SubEntry, is_alive, fan_out, deliver_all, guard, guarded, emit_violation, Outcome, Writer,
  absent, running, gone, queue_job, emit_durable, emit_guarded, emit, publish_durable,
  publish_guarded, publish,
}
use tenon.Bus.Hub.Delivery.{Owns, deliver_all-at, subs-fan_out, rings-fan_out, next_ring-fan_out}

abbrev pub Passes : Filter → Published → Type 0
Passes f m = matches f m.envelope ≡ true

abbrev pub Filtered : (ℕ → Ring) → SubEntry → Type 0
Filtered rings s = All (Passes s.filter) (rings s.ring).queue

pub record IsSound (h : Hub) : Type 0 where
  pub owns : Owns h.next_ring h.subs
  pub filtered : All (Filtered h.rings) h.subs

pub Owns-retain :
    (next : ℕ) (p : SubEntry → Bool) (subs : List SubEntry)
    → Owns next subs
    → Owns next (retain p subs)
Owns-retain next p [] o = tt
Owns-retain next p (s ∷ subs) o =
    ground (arith, Owns-retain next p subs o.2, All-retain (λ t. t.ring ≢ s.ring) p subs o.1)

pop_front-All : (P : Published → Type 0) (q : List Published) → All P q → All P (Ring.pop_front q)
pop_front-All P [] h = tt
pop_front-All P (m ∷ q) h = h.1

-- A push keeps what is true of every message in the queue.
pub push-All :
    (P : Published → Type 0) (r : Ring) (m : Published)
    → All P r.queue
    → P m
    → All P (Ring.push r m).queue
unfolding Ring.push
push-All P r m h p = ground (
  arith,
  All-append P (retain (λ n. not (Ring.key_of n == Ring.key_of m)) r.queue) (m ∷ [])
      (All-retain P _ r.queue h) (p, tt),
  All-append P (Ring.pop_front r.queue) (m ∷ []) (pop_front-All P r.queue h) (p, tt),
  All-append P r.queue (m ∷ []) h (p, tt),
)

deliver_all-Filtered :
    (msg : Published) (subs : List SubEntry) (rings : ℕ → Ring) (next : ℕ)
    → Owns next subs
    → All (Filtered rings) subs
    → All (Filtered (deliver_all msg subs rings)) subs
deliver_all-Filtered msg subs rings next owns f = All-of_at _ subs (λ k s at. one k s at)
  where
    one :
        (k : ℕ) (s : SubEntry) → get_elem? subs k ≡ some s → Filtered (deliver_all msg subs rings) s
    one k s at =
        let before = All-at _ subs k s f at in
        rw (deliver_all-at msg subs rings next k s owns at)
          (ground (arith, push-All (Passes s.filter) (rings s.ring) msg before))

pub fan_out-IsSound :
    (now : ℤ) (msg : Published) (h : Hub) → IsSound h → IsSound (fan_out now msg h)
fan_out-IsSound now msg h s = record {
  owns =
      rw (subs-fan_out now msg h, next_ring-fan_out now msg h)
        (ground (arith, s.owns, Owns-retain h.next_ring (is_alive h) h.subs s.owns));
  filtered =
      rw (subs-fan_out now msg h, rings-fan_out now msg h)
        (elim (Bool-cases (is_expired msg.envelope now)) [
          | inl expired ↦ rw expired s.filtered
          | inr fresh ↦ rw fresh (
              All-retain _ (is_alive h) h.subs
                (deliver_all-Filtered msg h.subs h.rings h.next_ring s.owns s.filtered))
        ]);
}

-- Setting the other fields leaves the subscribers and their rings alone.
pub same_subs :
    {h h' : Hub}
    → h'.subs ≡ h.subs
    → h'.rings ≡ h.rings
    → h'.next_ring ≡ h.next_ring
    → IsSound h
    → IsSound h'
same_subs {h} {h'} a b c s = record { owns = rw (a, c) s.owns; filtered = rw (a, b) s.filtered }

guarded-IsSound :
    (now : ℤ) (fresh : String) (e : Envelope) (h : Hub) (r : Result String (Value × Tags))
    → IsSound h
    → IsSound (guarded now fresh e h r).1
unfolding emit_violation
guarded-IsSound now fresh e h (ok (payload, tags)) s = s
guarded-IsSound now fresh e h (err name) s = fan_out-IsSound now _ h s

guard-IsSound :
    (now : ℤ) (fresh : String) (e : Envelope) (h : Hub)
    → IsSound h
    → IsSound (guard now fresh e h).1
unfolding guard
guard-IsSound now fresh e h s = elim (Bool-cases (is_empty h.secrets)) [
  | inl none_set ↦ rw none_set s
  | inr some_set ↦ rw some_set (guarded-IsSound now fresh e h _ s)
]

queue_job-IsSound :
    (e : Envelope) (reply : Option ℕ) (h : Hub) → IsSound h → IsSound (queue_job e reply h)
queue_job-IsSound e reply h s = same_subs refl refl refl s

emit_durable-IsSound :
    (now : ℤ) (e : Envelope) (h : Hub) (w : Writer) → IsSound h → IsSound (emit_durable now e h w)
emit_durable-IsSound now e h running s = queue_job-IsSound e none h s
emit_durable-IsSound now e h gone s = s
emit_durable-IsSound now e h absent s = fan_out-IsSound now _ h s

emit_guarded-IsSound :
    (now : ℤ) (r : Result String Envelope) (h : Hub) → IsSound h → IsSound (emit_guarded now (r, h))
emit_guarded-IsSound now (err reason) h s = s
emit_guarded-IsSound now (ok e) h s =
    if_both IsSound e.durable _ _ (emit_durable-IsSound now e h h.writer s)
      (fan_out-IsSound now _ h s)

pub emit-IsSound :
    (now : ℤ) (fresh other : String) (e : Envelope) (h : Hub)
    → IsSound h
    → IsSound (emit now fresh other e h)
unfolding emit
emit-IsSound now fresh other e h s =
    emit_guarded-IsSound now _ _ (guard-IsSound now other (normalize now fresh e) h s)

publish_durable-IsSound :
    (now : ℤ) (e : Envelope) (h : Hub) (w : Writer)
    → IsSound h
    → IsSound (publish_durable now e h w).1
publish_durable-IsSound now e h running s = same_subs refl refl refl s
publish_durable-IsSound now e h gone s = s
publish_durable-IsSound now e h absent s = fan_out-IsSound now _ h s

publish_guarded-IsSound :
    (now : ℤ) (r : Result String Envelope) (h : Hub)
    → IsSound h
    → IsSound (publish_guarded now (r, h)).1
publish_guarded-IsSound now (err reason) h s = s
publish_guarded-IsSound now (ok e) h s =
    if_both (λ (p : Outcome × Hub). IsSound p.1) e.durable _ _
      (publish_durable-IsSound now e h h.writer s) (fan_out-IsSound now _ h s)

pub publish-IsSound :
    (now : ℤ) (fresh other : String) (e : Envelope) (h : Hub)
    → IsSound h
    → IsSound (publish now fresh other e h).1
unfolding publish
publish-IsSound now fresh other e h s =
    publish_guarded-IsSound now _ _ (guard-IsSound now other (normalize now fresh e) h s)
