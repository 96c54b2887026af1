-- ===== src/Bus/Hub/Reach.antt =====
-- Every hub that the operations can reach, in any order of steps.
use tenon.Prelude.{
  ℕ, ◌+◌, String, true, ◌≡◌, ◌≢◌, refl, sym, subst, Option, none, some, List, [], ◌∷◌, ◌++◌, ℕ_eq,
  get_elem?, retain, All, All-append, All-map, All-retain, All-at, All-of_at, arith,
}
use tenon.Prelude.Int.{ℤ}
use tenon.Bus.Envelope.{Envelope}
use tenon.Bus.Filter.{Filter, matches}
use tenon.Bus.Filter.Meaning.{Narrows, matches-Accepts}
use tenon.Bus.Ring
use tenon.Bus.Ring.{Ring, Published}
use tenon.Bus.Secret.{Rule}
use tenon.Bus.Hub.{Hub, SubEntry, Job, Writer, update, is_alive, new, set_secrets, emit, publish}
use tenon.Bus.Hub.Delivery.{Owns}
use tenon.Bus.Hub.Subscribe.{
  Durable, SubOpts, Subscription, replay, missed, fresh_ring, subscribe, drop_subscription, recv,
}
use tenon.Bus.Hub.Commit.{publish_jobs, commit}
use tenon.Bus.Hub.Sound.{
  Passes, Filtered, IsSound, push-All, Owns-retain, fan_out-IsSound, same_subs, emit-IsSound,
  publish-IsSound,
}

-- A change of one ring keeps the invariant if it keeps what the ring's owner asks of it.
update-IsSound :
    (h : Hub) (i : ℕ) (r : Ring)
    → ((s : SubEntry) → s.ring ≡ i → Filtered h.rings s → All (Passes s.filter) r.queue)
    → IsSound h
    → IsSound (record h { rings = update h.rings i r })
update-IsSound h i r keep s = record {
  owns = s.owns;
  filtered = All-of_at _ h.subs (λ k t at. one t (All-at _ h.subs k t s.filtered at));
}
  where
    one : (t : SubEntry) → Filtered h.rings t → Filtered (update h.rings i r) t
    one t f = ground (arith, keep t)

drop-IsSound : (sub : Subscription) (h : Hub) → IsSound h → IsSound (drop_subscription sub h)
unfolding drop_subscription Ring.close
drop-IsSound sub h s =
    update-IsSound h sub.ring _
      (λ t same f. subst (λ i. All (Passes t.filter) (h.rings i).queue) same f) s

recv_round-All :
    (P : Published → Type 0) (r : Ring) → All P r.queue → All P (Ring.recv_round none [] r).0.queue
unfolding Ring.recv_round Ring.drain
recv_round-All P r h = ground arith

recv-IsSound : (sub : Subscription) (h : Hub) → IsSound h → IsSound (recv sub h).1
unfolding recv
recv-IsSound sub h s =
    update-IsSound h sub.ring _
      (λ t same f. recv_round-All _ _ (subst (λ i. All (Passes t.filter) (h.rings i).queue) same f))
      s

replay-Passes :
    (now : ℤ) (ceiling : ℕ) (f : Filter) (rows : List (ℕ × Envelope)) (r : Ring)
    → All (Passes f) r.queue
    → All (Passes f) (replay now ceiling f rows r).queue
unfolding replay
replay-Passes now ceiling f [] r h = h
replay-Passes now ceiling f (row ∷ rows) r h =
    replay-Passes now ceiling f rows _
      (ground (arith, push-All (Passes f) r (record { envelope = row.1; offset = row.0 }) h))

All-below : (next : ℕ) (subs : List SubEntry) → Owns next subs → All (λ t. t.ring ≢ next) subs
All-below next [] o = tt
All-below next (t ∷ subs) o = (omega arith, All-below next subs o.2)

Owns-snoc :
    (next : ℕ) (subs : List SubEntry) (s : SubEntry)
    → s.ring ≡ next
    → Owns next subs
    → Owns (next + 1) (subs ++ s ∷ [])
Owns-snoc next [] s at o = (omega arith, tt, tt)
Owns-snoc next (t ∷ subs) s at o = (
  omega arith,
  All-append (λ (u : SubEntry). u.ring ≢ t.ring) subs (s ∷ []) o.1 (omega arith, tt),
  Owns-snoc next subs s at o.2,
)

Filtered-update :
    (rings : ℕ → Ring) (i : ℕ) (r : Ring) (subs : List SubEntry)
    → All (λ t. t.ring ≢ i) subs
    → All (Filtered rings) subs
    → All (Filtered (update rings i r)) subs
Filtered-update rings i r [] ne f = tt
Filtered-update rings i r (t ∷ subs) ne f =
    (ground (arith, ne.0, f.0), Filtered-update rings i r subs ne.1 f.1)

-- A new entry with a ring of its own keeps the invariant if its ring does.
register-IsSound :
    (h : Hub) (f : Filter) (top : ℕ) (r : Ring)
    → All (Passes f) r.queue
    → IsSound h
    → IsSound (record h {
      subs =
          retain (is_alive h) h.subs
          ++ record { filter = f; ring = h.next_ring; since_max = top } ∷ [];
      rings = update h.rings h.next_ring r;
      next_ring = h.next_ring + 1;
    })
register-IsSound h f top r passes s =
    let owns = Owns-retain h.next_ring (is_alive h) h.subs s.owns in
    record {
      owns = Owns-snoc h.next_ring _ _ refl owns;
      filtered =
          All-append (Filtered (update h.rings h.next_ring r)) (retain (is_alive h) h.subs) _
            (Filtered-update h.rings h.next_ring r (retain (is_alive h) h.subs)
              (All-below h.next_ring _ owns)
              (All-retain (Filtered h.rings) (is_alive h) h.subs s.filtered))
            (ground (arith, passes), tt);
    }

pub subscribe-IsSound :
    (d : Durable) (ceiling : ℕ) (now : ℤ) (f : Filter) (opts : SubOpts) (log : Option d.Log)
    → (h : Hub) → IsSound h
    → IsSound (subscribe d ceiling now f opts log h).1
unfolding subscribe Ring.new
subscribe-IsSound d ceiling now f opts log h s =
    register-IsSound h f ceiling _
      (replay-Passes now ceiling f (missed d log opts.since_offset) (fresh_ring opts) tt) s

publish_jobs-IsSound :
    (clock : ℕ → ℤ) (offsets : List ℕ) (index : ℕ) (jobs : List Job) (h : Hub)
    → IsSound h
    → IsSound (publish_jobs clock offsets index jobs h)
unfolding publish_jobs
publish_jobs-IsSound clock offsets index [] h s = s
publish_jobs-IsSound clock offsets index (job ∷ jobs) h s =
    publish_jobs-IsSound clock offsets (index + 1) jobs _
      (same_subs refl refl refl (fan_out-IsSound (clock index) _ h s))

commit-IsSound :
    (d : Durable) (clock : ℕ → ℤ) (arrived : ℕ) (log : Option d.Log) (h : Hub)
    → IsSound h
    → IsSound (commit d clock arrived log h).1
unfolding commit
commit-IsSound d clock arrived log h s =
    publish_jobs-IsSound clock _ 0 _ _ (same_subs refl refl refl s)

-- The steps of a hub over a log: each method, at any time, with any argument.
pub data Step (d : Durable) (h h' : Hub) : Type 0 where
  emits :
      (now : ℤ) (fresh other : String) (e : Envelope) → h' ≡ emit now fresh other e h → Step d h h'
  publishes :
      (now : ℤ) (fresh other : String) (e : Envelope)
      → h' ≡ (publish now fresh other e h).1
      → Step d h h'
  subscribes :
      (ceiling : ℕ) (now : ℤ) (f : Filter) (opts : SubOpts) (log : Option d.Log)
      → h' ≡ (subscribe d ceiling now f opts log h).1
      → Step d h h'
  receives : (sub : Subscription) → h' ≡ (recv sub h).1 → Step d h h'
  drops : (sub : Subscription) → h' ≡ drop_subscription sub h → Step d h h'
  commits :
      (clock : ℕ → ℤ) (arrived : ℕ) (log : Option d.Log)
      → h' ≡ (commit d clock arrived log h).1
      → Step d h h'
  sets_secrets : (rules : List Rule) → h' ≡ set_secrets h rules → Step d h h'

pub data Reach (d : Durable) : Hub → Type 0 where
  start : (w : Writer) (head : ℕ) → Reach d (new w head)
  next : {h h' : Hub} → Reach d h → Step d h h' → Reach d h'

by_eq : {h h' : Hub} → h' ≡ h → IsSound h → IsSound h'
by_eq e s = subst IsSound (sym e) s

Step-IsSound : {d : Durable} {h h' : Hub} → Step d h h' → IsSound h → IsSound h'
unfolding set_secrets
Step-IsSound (emits now fresh other e p) s = by_eq p (emit-IsSound now fresh other e _ s)
Step-IsSound (publishes now fresh other e p) s = by_eq p (publish-IsSound now fresh other e _ s)
Step-IsSound {d} (subscribes ceiling now f opts log p) s =
    by_eq p (subscribe-IsSound d ceiling now f opts log _ s)
Step-IsSound (receives sub p) s = by_eq p (recv-IsSound sub _ s)
Step-IsSound (drops sub p) s = by_eq p (drop-IsSound sub _ s)
Step-IsSound {d} (commits clock arrived log p) s = by_eq p (commit-IsSound d clock arrived log _ s)
Step-IsSound (sets_secrets rules p) s = by_eq p (same_subs refl refl refl s)

Reach-IsSound : {d : Durable} {h : Hub} → Reach d h → IsSound h
unfolding new
Reach-IsSound (start w head) = record { owns = tt; filtered = tt }
Reach-IsSound (next r st) = Step-IsSound st (Reach-IsSound r)

-- Whatever the order of publishes, commits, subscriptions, replays, receives and closings: a
-- message that waits for a subscriber whose filter names an env carries that env.
pub Reach-isolates :
    (d : Durable) (h : Hub) (k : ℕ) (s : SubEntry) (env : String)
    → Reach d h
    → get_elem? h.subs k ≡ some s
    → s.filter.env ≡ some env
    → All (λ m. m.envelope.env ≡ some env) (h.rings s.ring).queue
Reach-isolates d h k s env r at scoped =
    All-map _ (λ m passes. own_env s.filter m.envelope env scoped passes)
      (All-at (Filtered h.rings) h.subs k s (Reach-IsSound r).filtered at)
  where
    own_env :
        (f : Filter) (e : Envelope) (env : String)
        → f.env ≡ some env
        → matches f e ≡ true
        → e.env ≡ some env
    own_env f e env scoped passes =
        let axis = ((matches-Accepts f e).0 passes).env in subst (λ o. Narrows o e.env) scoped axis
