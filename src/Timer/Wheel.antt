-- ===== src/Timer/Wheel.antt =====
-- One turn of the wheel (`load`, `dispatch`, `fire` and `reschedule` of rs/base/src/timer.rs) at the
-- time `at`: the timers that are due are fired, and set anew or deleted.
use tenon.Prelude.{
  ℕ, String, Bool, true, false, not, Option, none, some, List, [], ◌∷◌, ◌++◌, length, if◌then◌else◌,
}
use tenon.Prelude.Int.{ℤ, pos, ◌-ℤ◌, wrap_i64, ltb_ℤ, min_ℤ, max_ℤ}
use tenon.Json.{Value, object}
use tenon.Bus.Level
use tenon.Bus.Envelope
use tenon.Bus.Envelope.{Envelope}
use tenon.Kv.{Bytes, Name, Disk, set}
use tenon.Kv.Range.{scan_all}
use tenon.Timer.{
  Timer, Service, timers_prefix, max_sleep_ms, wrap_add, record_of, parse, name_of, del_timer,
}

module _ (encode : Value → Bytes) (decode : Bytes → Option Value) where
  abbrev pub parse_some : Option Value → Option Timer
  parse_some none = none
  parse_some (some v) = parse v

  -- The timer that the bytes of a row are.
  abbrev pub timer_of : Bytes → Option Timer
  timer_of bytes = parse_some (decode bytes)

  abbrev pub add_timer : Option Timer → List Timer → List Timer
  add_timer none ts = ts
  add_timer (some t) ts = t ∷ ts

  abbrev pub timers_of : List (Name × Bytes) → List Timer
  timers_of [] = []
  timers_of ((n, bytes) ∷ rows) = add_timer (timer_of bytes) (timers_of rows)

  unfoldable pub load : (String → String → Bool) → Bool → Service → List Timer
  load like queries s = timers_of (scan_all like queries timers_prefix s.kv)

  -- The envelope of a timer, as the one after `n` others.
  abbrev pub fired : (ℕ → ℤ) → (ℕ → String) → ℕ → Timer → Envelope
  fired clock fresh n t = record (Envelope.new (clock n) (fresh n) t.topic Level.info t.payload) {
    env = some t.env;
    src = "timer";
    durable = true;
    ttl_s = t.ttl_s;
  }

  abbrev pub fire : (ℕ → ℤ) → (ℕ → String) → Timer → Service → Service
  fire clock fresh t s = record s {
    emitted = s.emitted ++ fired clock fresh (length s.emitted) t ∷ [];
  }

  abbrev pub reschedule : Disk → ℤ → Timer → ℤ → Service → Service
  reschedule disk now t fire_at s = record s {
    kv =
        (set disk now (name_of t) (encode (object (record_of (record t { fire_at = fire_at }))))
          true none none s.kv).1;
  }

  abbrev pub repeats : Option ℤ → Bool
  repeats none = false
  repeats (some every) = ltb_ℤ (pos 0) every

  abbrev pub next_time : ℤ → Option ℤ → ℤ
  next_time at none = at
  next_time at (some every) = wrap_add at every

  -- What becomes of the record of a timer that has fired.
  abbrev pub settle : Disk → ℤ → Timer → Service → Service
  settle disk at t s =
      if repeats t.every_ms
      then reschedule disk at t (next_time at t.every_ms) s
      else (del_timer encode decode disk t.env t.id s).1

  abbrev pub is_due : ℤ → Timer → Bool
  is_due at t = not (ltb_ℤ at t.fire_at)

  abbrev pub after_fire : ℤ → Timer → ℤ → ℤ
  after_fire at t next = if repeats t.every_ms then min_ℤ next (next_time at t.every_ms) else next

  abbrev pub turn : Disk → (ℕ → ℤ) → (ℕ → String) → ℤ → List Timer → ℤ → Service → ℤ × Service
  turn disk clock fresh at [] next s = (next, s)
  turn disk clock fresh at (t ∷ ts) next s =
      let later = turn disk clock fresh at ts (min_ℤ next t.fire_at) s in
      let now =
        turn disk clock fresh at ts (after_fire at t next)
          (settle disk at t (fire clock fresh t s)) in
      if ltb_ℤ at t.fire_at then later else now

  -- `(next - at).clamp(1, MAX_SLEEP_MS)`
  abbrev pub sleep_until : ℤ → ℤ → ℤ
  sleep_until at next = min_ℤ (max_ℤ (wrap_i64 (next -ℤ at)) (pos 1)) max_sleep_ms

  -- How long the wheel sleeps, and the service.
  unfoldable pub dispatch :
      (String → String → Bool) → Bool → Disk → (ℕ → ℤ) → (ℕ → String) → ℤ → Service → ℤ × Service
  dispatch like queries disk clock fresh at s =
      let (next, s') =
        turn disk clock fresh at (load like queries s) (wrap_add at max_sleep_ms) s in
      (sleep_until at next, s')
