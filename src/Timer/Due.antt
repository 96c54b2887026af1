-- ===== src/Timer/Due.antt =====
-- Which timers one turn of the wheel fires and how long it sleeps (`dispatch` of
-- rs/base/src/timer.rs).
use tenon.Prelude.{
  ℕ, ◌+◌, String, Bool, true, not, ◌≡◌, ◌⊎◌, inl, inr, refl, sym, ap, ◌∙◌, Option, List, [], ◌∷◌,
  ◌++◌, length, retain, All, All-map, append-nil, snoc_append, length-append, arith, if◌then◌else◌,
  if_split, if_both, none, some, subst,
}
use tenon.Prelude.Int.{
  ℤ, pos, ◌+ℤ◌, ◌-ℤ◌, ◌≤ℤ◌, ltb_ℤ, min_ℤ, max_ℤ, int_laws, i64_max, i64_min, InI64, wrap_i64,
  wrap_of_InI64,
}
use tenon.Json.{Value}
use tenon.Bus.Envelope.{Envelope}
use tenon.Kv.{Bytes, Disk}
use tenon.Timer.{Timer, Service, max_sleep_ms, wrap_add, del_timer}
use tenon.Timer.Wheel.{
  load, fired, fire, settle, repeats, next_time, reschedule, is_due, after_fire, turn, sleep_until,
  dispatch,
}
use tenon.Timer.NextTime.{InRange, interval_of, late}

module _ (encode : Value → Bytes) (decode : Bytes → Option Value) where
  settle-emitted :
      (disk : Disk) (at : ℤ) (t : Timer) (s : Service)
      → (settle encode decode disk at t s).emitted ≡ s.emitted
  unfolding del_timer
  settle-emitted disk at t s =
      if_both (λ (s' : Service). s'.emitted ≡ s.emitted) (repeats encode decode t.every_ms)
        (reschedule encode decode disk at t (next_time encode decode at t.every_ms) s)
        (del_timer encode decode disk t.env t.id s).1 refl refl

  -- The envelopes of timers fired after `n` others.
  abbrev pub fired_from : (ℕ → ℤ) → (ℕ → String) → ℕ → List Timer → List Envelope
  fired_from clock fresh n [] = []
  fired_from clock fresh n (t ∷ ts) =
      fired encode decode clock fresh n t ∷ fired_from clock fresh (n + 1) ts

  min_le : (a b : ℤ) → (min_ℤ a b ≤ℤ a) × (min_ℤ a b ≤ℤ b)
  min_le a b = ground arith

  sub_mono : (at a b : ℤ) → a ≤ℤ b → (a -ℤ at) ≤ℤ (b -ℤ at)
  sub_mono at a b h = omega (int_laws, h)

  clamped :
      (a : ℤ)
      → (pos 1 ≤ℤ min_ℤ (max_ℤ a (pos 1)) max_sleep_ms)
        × (min_ℤ (max_ℤ a (pos 1)) max_sleep_ms ≤ℤ max_sleep_ms)
  clamped a = ground arith

  clamped_le : (a b : ℤ) → a ≤ℤ b → min_ℤ (max_ℤ a (pos 1)) max_sleep_ms ≤ℤ max_ℤ b (pos 1)
  clamped_le a b h = ground arith

  no_oversleep :
      (at next : ℤ) (t : Timer)
      → at ≤ℤ next
      → (next -ℤ at) ≤ℤ max_sleep_ms
      → (is_due encode decode at t ≡ true) ⊎ (next ≤ℤ t.fire_at)
      → (is_due encode decode at t ≡ true)
        ⊎ (sleep_until encode decode at next ≤ℤ max_ℤ (t.fire_at -ℤ at) (pos 1))
  no_oversleep at next t from near (inl due) = inl due
  no_oversleep at next t from near (inr before) = inr (
      subst (λ d. min_ℤ (max_ℤ d (pos 1)) max_sleep_ms ≤ℤ max_ℤ (t.fire_at -ℤ at) (pos 1))
        (sym (wrap_of_InI64 (next -ℤ at) (omega (int_laws, from, near), omega (int_laws, near))))
        (clamped_le (next -ℤ at) (t.fire_at -ℤ at) (sub_mono at next t.fire_at before)))

  min_late : (at next other : ℤ) → ltb_ℤ at other ≡ true → at ≤ℤ next → at ≤ℤ min_ℤ next other
  min_late at next other early from = ground arith

  wrap_add_fits : (a b : ℤ) → InI64 (a +ℤ b) → wrap_add a b ≡ a +ℤ b
  unfolding wrap_add
  wrap_add_fits a b fits = ground arith

  -- What a timer that fires may bring the turn to is not before the turn's time.
  next_late :
      (at : ℤ) (o : Option ℤ) (next : ℤ)
      → (at +ℤ interval_of encode decode o) ≤ℤ i64_max
      → at ≤ℤ next
      → repeats encode decode o ≡ true
      → at ≤ℤ min_ℤ next (next_time encode decode at o)
  next_late at none next fits from on = ground (arith, on)
  next_late at (some every) next fits from on =
      min_late at next (wrap_add at every) (late encode decode at every on fits) from

  after_fire_late :
      (at : ℤ) (t : Timer) (next : ℤ)
      → InRange encode decode at t
      → at ≤ℤ next
      → at ≤ℤ after_fire encode decode at t next
  after_fire_late at t next fits from =
      if_split (λ n. at ≤ℤ n) (repeats encode decode t.every_ms)
        (min_ℤ next (next_time encode decode at t.every_ms)) next
        (λ on. next_late at t.every_ms next fits from on) (λ off. from)

  after_fire_le : (at : ℤ) (t : Timer) (next : ℤ) → after_fire encode decode at t next ≤ℤ next
  after_fire_le at t next =
      if_both (λ n. n ≤ℤ next) (repeats encode decode t.every_ms)
        (min_ℤ next (next_time encode decode at t.every_ms)) next
        (min_le next (next_time encode decode at t.every_ms)).0 (omega arith)

  module _ (disk : Disk) (clock : ℕ → ℤ) (fresh : ℕ → String) (at : ℤ) where
    turn-emitted :
        (ts : List Timer) (next : ℤ) (s : Service)
        → (turn encode decode disk clock fresh at ts next s).1.emitted
          ≡ s.emitted
            ++ fired_from clock fresh (length s.emitted) (retain (is_due encode decode at) ts)
    turn-emitted [] next s = sym (append-nil s.emitted)
    turn-emitted (t ∷ ts) next s =
        let begun = fire encode decode clock fresh t s in
        let one = fired encode decode clock fresh (length s.emitted) t in
        let left = retain (is_due encode decode at) ts in
        let listed : Bool → List Envelope = λ b.
          s.emitted
          ++ fired_from clock fresh (length s.emitted) (if not b then t ∷ left else left) in
        if_split (λ (r : ℤ × Service). r.1.emitted ≡ listed (ltb_ℤ at t.fire_at))
          (ltb_ℤ at t.fire_at) (turn encode decode disk clock fresh at ts (min_ℤ next t.fire_at) s)
          (turn encode decode disk clock fresh at ts (after_fire encode decode at t next)
            (settle encode decode disk at t begun))
          (λ early. turn-emitted ts (min_ℤ next t.fire_at) s ∙ ap listed (sym early))
          (λ due.
            turn-emitted ts (after_fire encode decode at t next)
              (settle encode decode disk at t begun)
            ∙ ap (λ es. es ++ fired_from clock fresh (length es) left)
                (settle-emitted disk at t begun)
            ∙ ap (λ n. (s.emitted ++ one ∷ []) ++ fired_from clock fresh n left)
                (length-append s.emitted (one ∷ []))
            ∙ snoc_append s.emitted one (fired_from clock fresh (length s.emitted + 1) left)
            ∙ ap listed (sym due))

    turn_late :
        (ts : List Timer) (next : ℤ) (s : Service)
        → All (InRange encode decode at) ts
        → at ≤ℤ next
        → at ≤ℤ (turn encode decode disk clock fresh at ts next s).0
    turn_late [] next s fits from = from
    turn_late (t ∷ ts) next s fits from =
        let begun = settle encode decode disk at t (fire encode decode clock fresh t s) in
        if_split (λ (r : ℤ × Service). at ≤ℤ r.0) (ltb_ℤ at t.fire_at)
          (turn encode decode disk clock fresh at ts (min_ℤ next t.fire_at) s)
          (turn encode decode disk clock fresh at ts (after_fire encode decode at t next) begun)
          (λ early.
            turn_late ts (min_ℤ next t.fire_at) s fits.1 (min_late at next t.fire_at early from))
          (λ due.
            turn_late ts (after_fire encode decode at t next) begun fits.1
              (after_fire_late at t next fits.0 from))

    -- The time that a turn comes to is not after the one it began with, nor after any timer that
    -- is not due.
    turn_next :
        (ts : List Timer) (next : ℤ) (s : Service)
        → ((turn encode decode disk clock fresh at ts next s).0 ≤ℤ next)
          × All
              (λ (t : Timer).
                (is_due encode decode at t ≡ true)
                ⊎ ((turn encode decode disk clock fresh at ts next s).0 ≤ℤ t.fire_at))
              ts
    turn_next [] next s = (omega arith, tt)
    turn_next (t ∷ ts) next s =
        let begun = settle encode decode disk at t (fire encode decode clock fresh t s) in
        let (below, each) = turn_next ts (min_ℤ next t.fire_at) s in
        let (below', each') = turn_next ts (after_fire encode decode at t next) begun in
        if_split
          (λ (r : ℤ × Service).
            (r.0 ≤ℤ next)
            × All (λ (x : Timer). (is_due encode decode at x ≡ true) ⊎ (r.0 ≤ℤ x.fire_at)) (t ∷ ts))
          (ltb_ℤ at t.fire_at) (turn encode decode disk clock fresh at ts (min_ℤ next t.fire_at) s)
          (turn encode decode disk clock fresh at ts (after_fire encode decode at t next) begun)
          (λ early. (
            omega (arith, below, min_le next t.fire_at),
            (inr (omega (arith, below, min_le next t.fire_at)), each),
          ))
          (λ due. (omega (arith, below', after_fire_le at t next), (inl (ap not due), each')))

  -- At a time of `i64` that is a minute or more below the greatest, and if no interval of a loaded
  -- timer takes that time out of its range: a turn emits one envelope for each loaded timer that is
  -- due, in the order of their loading, and none else; it then sleeps between a millisecond and a
  -- minute, and, but for that millisecond, no longer than up to the time of any loaded timer that
  -- was not due.
  pub dispatch_fires :
      (like : String → String → Bool) (queries : Bool) (disk : Disk) (clock : ℕ → ℤ)
      (fresh : ℕ → String) (at : ℤ) (s : Service)
      → i64_min ≤ℤ at
      → (at +ℤ max_sleep_ms) ≤ℤ i64_max
      → All (InRange encode decode at) (load encode decode like queries s)
      → ((dispatch encode decode like queries disk clock fresh at s).1.emitted
          ≡ s.emitted
            ++ fired_from clock fresh
                (length s.emitted)
                (retain (is_due encode decode at) (load encode decode like queries s)))
        × (pos 1 ≤ℤ (dispatch encode decode like queries disk clock fresh at s).0)
        × ((dispatch encode decode like queries disk clock fresh at s).0 ≤ℤ max_sleep_ms)
        × All
            (λ (t : Timer).
              (is_due encode decode at t ≡ true)
              ⊎ ((dispatch encode decode like queries disk clock fresh at s).0
                  ≤ℤ max_ℤ (t.fire_at -ℤ at) (pos 1)))
            (load encode decode like queries s)
  unfolding dispatch
  dispatch_fires like queries disk clock fresh at s low high fits =
      let ts = load encode decode like queries s in
      let start = wrap_add at max_sleep_ms in
      let sum = wrap_add_fits at max_sleep_ms (omega (int_laws, low), high) in
      let begin : (at ≤ℤ start) × ((start -ℤ at) ≤ℤ max_sleep_ms) =
        (rw sum (omega int_laws), rw sum (omega int_laws)) in
      let from = turn_late disk clock fresh at ts start s fits begin.0 in
      let next = (turn encode decode disk clock fresh at ts start s).0 in
      let (below, each) = turn_next disk clock fresh at ts start s in
      (
        turn-emitted disk clock fresh at ts start s,
        (clamped (wrap_i64 (next -ℤ at))).0,
        (clamped (wrap_i64 (next -ℤ at))).1,
        All-map ts (λ t h. no_oversleep at next t from (omega (int_laws, below, begin.1)) h) each,
      )
