-- ===== src/Timer.antt =====
-- The timer service (rs/base/src/timer.rs): timers are records of the durable kv table under
-- `/timers/`, and one wheel fires those that are due. `encode` and `decode` are `serde_json`'s text of
-- a value and its reading; `clock` and `fresh` give the time and the id of each envelope that
-- is emitted, by how many were before it.
pub mod Wheel
pub mod Due
pub mod NextTime
pub mod Quiet
pub mod Tests
use tenon.Prelude.{
  ℕ, ◌+◌, ◌^◌, ◌%◌, String, Bool, true, false, ◌&&◌, Option, none, some, List, [], ◌∷◌, ◌++◌, map,
  length, Result, ok, err, ltb, if◌then◌else◌,
}
use tenon.Prelude.Int.{ℤ, pos, negsuc, ◌+ℤ◌, ◌-ℤ◌, ltb_ℤ, leb_ℤ, i64_max, i64_min, min_ℤ, max_ℤ}
use tenon.Text.{◌<>◌}
use tenon.Decimal.{decimal}
use tenon.Json.{Value, null, string, integer, object, Fields, end, field}
use tenon.Bus.Level
use tenon.Bus.Envelope
use tenon.Bus.Envelope.{Envelope}
use tenon.Trigger.Template.{get}
use tenon.Trigger.Fire.{as_str, or_null}
use tenon.Kv.{Bytes, Name, Facade, Disk, set, del}
use tenon.Kv.Range.{range, scan_all}

abbrev pub timers_prefix : String
timers_prefix = "/timers/"

abbrev pub max_sleep_ms : ℤ
max_sleep_ms = pos 60000

pub record Timer : Type 0 where
  pub id : String
  pub env : String
  pub topic : String
  pub payload : Value
  pub every_ms : Option ℤ
  pub fire_at : ℤ
  pub ttl_s : Option ℕ

-- `emitted` are the timers' envelopes; what the store emits of its own is in the facade.
pub record Service : Type 0 where
  pub kv : Facade
  pub seq : ℕ
  pub emitted : List Envelope

abbrev as_i64_of : ℤ → Option ℤ
as_i64_of n = if ltb_ℤ i64_max n then none else some n

-- `Value::as_i64` and `as_u64`, on an optional value
abbrev pub as_i64 : Option Value → Option ℤ
as_i64 (some (integer n)) = as_i64_of n
as_i64 o = none

abbrev pub as_u64 : Option Value → Option ℕ
as_u64 (some (integer (pos n))) = some n
as_u64 o = none

-- `a + b` on `i64`, without a check
unfoldable pub wrap_add : ℤ → ℤ → ℤ
wrap_add a b =
    let sum = a +ℤ b in
    if ltb_ℤ i64_max sum
    then sum -ℤ pos (2 ^ 64)
    else if ltb_ℤ sum i64_min
    then sum +ℤ pos (2 ^ 64)
    else sum

abbrev opt_int : Option ℤ → Value
opt_int none = null
opt_int (some n) = integer n

abbrev opt_nat : Option ℕ → Value
opt_nat none = null
opt_nat (some n) = integer (pos n)

-- The record of a timer.
abbrev pub record_of : Timer → Fields
record_of t = field "id" (string t.id) (
    field "env" (string t.env) (
      field "topic" (string t.topic) (
        field "payload" t.payload (
          field "every_ms" (opt_int t.every_ms)
            (field "fire_at" (integer t.fire_at) (field "ttl_s" (opt_nat t.ttl_s) end))))))

abbrev pub int_or : ℤ → Option ℤ → ℤ
int_or d none = d
int_or d (some n) = n

abbrev u32_of : Option ℕ → Option ℕ
u32_of none = none
u32_of (some n) = some (n % 2 ^ 32)

abbrev pub parsed : Value → Option String → Option String → Option String → Option Timer
parsed value (some id) (some env) (some topic) = some (record {
  id = id;
  env = env;
  topic = topic;
  payload = or_null (get value "payload");
  every_ms = as_i64 (get value "every_ms");
  fire_at = int_or (pos 0) (as_i64 (get value "fire_at"));
  ttl_s = u32_of (as_u64 (get value "ttl_s"));
})
parsed value _ _ _ = none

unfoldable pub parse : Value → Option Timer
parse value =
    parsed value (as_str (get value "id")) (as_str (get value "env")) (as_str (get value "topic"))

abbrev pub name_of : Timer → Name
name_of t = (t.env, timers_prefix <> t.id)

abbrev is_given : Option Value → Bool
is_given none = false
is_given (some v) = true

abbrev or_else : Option ℤ → Option ℤ → Option ℤ
or_else none o = o
or_else (some n) o = some n

module _ (encode : Value → Bytes) (decode : Bytes → Option Value) where
  abbrev minted : ℕ → Option String → Service → String × Service
  minted pid (some id) s = (id, s)
  minted pid none s = ("t" <> decimal pid <> "-" <> decimal s.seq, record s { seq = s.seq + 1 })

  abbrev after_set :
      String → ℤ → Service → Result String ℕ × Facade → Result String (String × ℤ) × Service
  after_set id fire_at s (ok rev, kv) = (ok (id, fire_at), record s { kv = kv })
  after_set id fire_at s (err reason, kv) = (err reason, record s { kv = kv })

  abbrev put_timer : Disk → ℤ → Timer → Service → Result String (String × ℤ) × Service
  put_timer disk now t s =
      after_set t.id t.fire_at s
        (set disk now (name_of t) (encode (object (record_of t))) true none none s.kv)

  abbrev set_with :
      Disk
      → ℤ
      → ℕ
      → String
      → Value
      → Option String
      → Option ℤ
      → Service
      → Result String (String × ℤ) × Service
  set_with disk now pid env params none interval s = (err "timer.set needs a topic", s)
  set_with disk now pid env params (some topic) none s = (
    err (
        if is_given (get params "cron")
        then "cron is not supported in P4.0; use after_ms or every_ms"
        else "timer.set needs after_ms or every_ms"),
    s,
  )
  set_with disk now pid env params (some topic) (some interval) s =
      let (id, s') = minted pid (as_str (get params "timer_id")) s in
      let made =
        put_timer disk now
          (record {
            id = id;
            env = env;
            topic = topic;
            payload = or_null (get params "payload");
            every_ms = as_i64 (get params "every_ms");
            fire_at = wrap_add now interval;
            ttl_s = as_u64 (get params "ttl_s");
          })
          s' in
      if is_given (get params "cron")
      then (err "cron is not supported in P4.0; use after_ms or every_ms", s)
      else if ltb_ℤ interval (pos 0)
      then (err "timer interval must be >= 0", s)
      else made

  -- `set`: the id and the time of the first firing, or the refusal.
  unfoldable pub set_timer :
      Disk → ℤ → ℕ → String → Value → Service → Result String (String × ℤ) × Service
  set_timer disk now pid env params s =
      set_with disk now pid env params (as_str (get params "topic"))
        (or_else (as_i64 (get params "after_ms")) (as_i64 (get params "every_ms"))) s

  unfoldable pub del_timer : Disk → String → String → Service → Bool × Service
  del_timer disk env id s =
      let (gone, kv) = del disk (env, timers_prefix <> id) s.kv in (gone, record s { kv = kv })

  abbrev values_of : List Bytes → List Value
  values_of [] = []
  values_of (b ∷ bs) = add_value (decode b) (values_of bs)
    where
      add_value : Option Value → List Value → List Value
      add_value none vs = vs
      add_value (some v) vs = v ∷ vs

  -- `list`
  unfoldable pub list_timers : (String → String → Bool) → Bool → ℤ → String → Service → List Value
  list_timers like queries now env s = values_of (
      map (λ (row : String × (Bytes × ℕ)). row.1.0) (range like queries now env timers_prefix s.kv))
