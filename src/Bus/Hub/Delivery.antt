-- ===== src/Bus/Hub/Delivery.antt =====
-- Who gets what from one fan-out.
use tenon.Prelude.{
  ℕ, zero, suc, ◌<◌, Bool, false, not, ◌&&◌, ◌≡◌, ◌≢◌, refl, sym, subst, ◌∙◌, some, List, [], ◌∷◌,
  ℕ_eq, any, retain, get_elem?, All, All-at, arith, if◌then◌else◌,
}
use tenon.Prelude.Int.{ℤ}
use tenon.Bus.Envelope.{is_expired}
use tenon.Bus.Filter.{matches}
use tenon.Bus.Ring
use tenon.Bus.Ring.{Ring, Published}
use tenon.Bus.Hub.{Hub, SubEntry, is_alive, prune, replayed, deliver, deliver_all, fan_out}

-- No two subscribers share a ring, and every ring in use has been allocated.
abbrev pub Owns : ℕ → List SubEntry → Type 0
Owns next [] = Unit
Owns next (s ∷ subs) = (s.ring < next) × All (λ t. t.ring ≢ s.ring) subs × Owns next subs

-- What a subscriber takes: it is alive, its replay does not cover the message, and its filter
-- passes it.
abbrev pub takes : SubEntry → Published → Ring → Bool
takes s msg r = r.alive && not (replayed s.since_max msg) && matches s.filter msg.envelope

pub alive-push : (r : Ring) (m : Published) → (Ring.push r m).alive ≡ r.alive
unfolding Ring.push
alive-push r m = ground arith

deliver_self :
    (msg : Published) (s : SubEntry) (rings : ℕ → Ring)
    → deliver msg s rings s.ring
      ≡ (if takes s msg (rings s.ring) then Ring.push (rings s.ring) msg else rings s.ring)
unfolding deliver
deliver_self msg s rings = ground arith

deliver-other :
    (msg : Published) (s : SubEntry) (rings : ℕ → Ring) (i : ℕ)
    → i ≢ s.ring
    → deliver msg s rings i ≡ rings i
unfolding deliver
deliver-other msg s rings i ne = ground arith

deliver_all-other :
    (msg : Published) (subs : List SubEntry) (rings : ℕ → Ring) (i : ℕ)
    → All (λ t. t.ring ≢ i) subs
    → deliver_all msg subs rings i ≡ rings i
unfolding deliver_all
deliver_all-other msg [] rings i ne = refl
deliver_all-other msg (s ∷ subs) rings i ne =
    deliver_all-other msg subs (deliver msg s rings) i ne.1
    ∙ deliver-other msg s rings i (λ e. ne.0 (sym e))

-- Each subscriber's ring gets the message if the subscriber takes it, and is left alone if not.
pub deliver_all-at :
    (msg : Published) (subs : List SubEntry) (rings : ℕ → Ring) (next k : ℕ) (s : SubEntry)
    → Owns next subs
    → get_elem? subs k ≡ some s
    → deliver_all msg subs rings s.ring
      ≡ (if takes s msg (rings s.ring) then Ring.push (rings s.ring) msg else rings s.ring)
unfolding deliver_all
deliver_all-at msg [] rings next k s owns at = cc
deliver_all-at msg (t ∷ subs) rings next zero s owns at =
    let same : t ≡ s = cc in
    subst
      (λ (u : SubEntry).
        deliver_all msg subs (deliver msg t rings) u.ring
        ≡ (if takes u msg (rings u.ring) then Ring.push (rings u.ring) msg else rings u.ring))
      same
      (deliver_all-other msg subs (deliver msg t rings) t.ring owns.1 ∙ deliver_self msg t rings)
deliver_all-at msg (t ∷ subs) rings next (suc k) s owns at =
    let apart = deliver-other msg t rings s.ring (All-at _ subs k s owns.1 at) in
    rw (deliver_all-at msg subs (deliver msg t rings) next k s owns.2 at) (rw apart)

alive-deliver_all :
    (msg : Published) (subs : List SubEntry) (rings : ℕ → Ring) (i : ℕ)
    → (deliver_all msg subs rings i).alive ≡ (rings i).alive
unfolding deliver_all deliver
alive-deliver_all msg [] rings i = refl
alive-deliver_all msg (s ∷ subs) rings i =
    alive-deliver_all msg subs (deliver msg s rings) i
    ∙ ground (arith, alive-push (rings s.ring) msg)

retain-all_alive :
    (p : SubEntry → Bool) (subs : List SubEntry)
    → any (λ s. not (p s)) subs ≡ false
    → retain p subs ≡ subs
retain-all_alive p [] h = refl
retain-all_alive p (s ∷ subs) h = ground (arith, retain-all_alive p subs)

retain_same :
    (p q : SubEntry → Bool) (subs : List SubEntry)
    → ((s : SubEntry) → p s ≡ q s)
    → retain p subs ≡ retain q subs
retain_same p q [] h = refl
retain_same p q (s ∷ subs) h = ground (arith, h s, retain_same p q subs h)

-- Unless the message has expired, a fan-out removes the subscribers whose ring is closed.
pub subs-fan_out :
    (now : ℤ) (msg : Published) (h : Hub)
    → (fan_out now msg h).subs
      ≡ (if is_expired msg.envelope now then h.subs else retain (is_alive h) h.subs)
unfolding fan_out prune
subs-fan_out now msg h = ground (
  arith,
  retain-all_alive (is_alive h) h.subs,
  retain_same (λ s. (deliver_all msg h.subs h.rings s.ring).alive) (is_alive h) h.subs
      (λ s. alive-deliver_all msg h.subs h.rings s.ring),
)

pub next_ring-fan_out :
    (now : ℤ) (msg : Published) (h : Hub) → (fan_out now msg h).next_ring ≡ h.next_ring
unfolding fan_out prune
next_ring-fan_out now msg h = ground arith

pub rings-fan_out :
    (now : ℤ) (msg : Published) (h : Hub)
    → (fan_out now msg h).rings
      ≡ (if is_expired msg.envelope now then h.rings else deliver_all msg h.subs h.rings)
unfolding fan_out prune
rings-fan_out now msg h = ground arith

-- One fan-out, for each subscriber of a hub in which no two share a ring: an expired message goes
-- to nobody; any other goes, once, to exactly the subscribers that are alive, whose replay does not
-- cover it and whose filter passes it; and those whose ring is closed are removed.
pub fan_out-delivers :
    (now : ℤ) (msg : Published) (h : Hub) (k : ℕ) (s : SubEntry)
    → Owns h.next_ring h.subs
    → get_elem? h.subs k ≡ some s
    → ((fan_out now msg h).rings s.ring ≡ (
        if not (is_expired msg.envelope now) && takes s msg (h.rings s.ring)
        then Ring.push (h.rings s.ring) msg
        else h.rings s.ring))
      × ((fan_out now msg h).subs
          ≡ (if is_expired msg.envelope now then h.subs else retain (is_alive h) h.subs))
fan_out-delivers now msg h k s owns at = (
  rw (rings-fan_out now msg h)
      (ground (arith, deliver_all-at msg h.subs h.rings h.next_ring k s owns at)),
  subs-fan_out now msg h,
)
