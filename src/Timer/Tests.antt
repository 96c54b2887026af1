-- ===== src/Timer/Tests.antt =====
-- A turn of the wheel over one repeating timer, with a text of its record that keeps the time of
-- firing only.
use tenon.Prelude.{
  ℕ, zero, suc, String, Bool, true, ◌≡◌, ◌⊎◌, refl, sym, ap, ◌∙◌, Option, none, some, [], ◌∷◌, ◌++◌,
  length, retain, All, arith, Bool-cases, inl, inr, String_eq,
}
use tenon.Prelude.Int.{ℤ, pos, negsuc, ◌-ℤ◌, ◌+ℤ◌, ◌≤ℤ◌, max_ℤ}
use tenon.Text.{begins, replace, replace_from}
use tenon.Json.{Value, null, object, integer}
use tenon.Trigger.Template.{get}
use tenon.Kv.{Bytes, Name, Entries, boot, same_name, find, sound_disk}
use tenon.Kv.Cells.{same_name-eq}
use tenon.Kv.Range.{escape_like, scan_all, kv_scan}
use tenon.Timer.{Timer, Service, record_of, parse, name_of, max_sleep_ms}
use tenon.Timer.Wheel.{timer_of, load, is_due, dispatch}
use tenon.Timer.Due.{fired_from, dispatch_fires}
use tenon.Timer.NextTime.{ReadsBack, InRange}
use tenon.Timer.Quiet.{IsQuiet, OwnNames, dispatch-IsQuiet}

abbrev timer : Timer
timer = record {
  id = "t1";
  env = "blue";
  topic = "tick";
  payload = null;
  every_ms = some (pos 1000);
  fire_at = pos 50;
  ttl_s = none;
}

abbrev int_bytes : ℤ → Bytes
int_bytes (pos n) = 0 ∷ n ∷ []
int_bytes (negsuc n) = 1 ∷ n ∷ []

abbrev field_bytes : Option Value → Bytes
field_bytes (some (integer n)) = int_bytes n
field_bytes o = []

abbrev encode : Value → Bytes
encode v = field_bytes (get v "fire_at")

abbrev at_time : ℤ → Option Value
at_time n = some (object (record_of (record timer { fire_at = n })))

abbrev decode : Bytes → Option Value
decode (zero ∷ n ∷ []) = at_time (pos n)
decode (suc k ∷ n ∷ []) = at_time (negsuc n)
decode bytes = none

int_back : (n : ℤ) → decode (int_bytes n) ≡ at_time n
int_back (pos n) = refl
int_back (negsuc n) = refl

reads_back : ReadsBack encode decode
reads_back t v e = ap (λ (o : Option Value). fire_of o) (sym e ∙ int_back t.fire_at)
  where
    fire_of : Option Value → Option Value
    fire_of none = none
    fire_of (some v) = get v "fire_at"

abbrev rows : Entries
rows =
    (
      ("blue", "/timers/t1"),
      record {
        value = encode (object (record_of timer));
        rev = 3;
        expires_at = none;
        lease_id = none;
      },
    )
    ∷ []

abbrev service : Service
service = record { kv = boot true true rows 7; seq = 1; emitted = [] }

abbrev like : String → String → Bool
like pattern key = begins "/timers/" key

abbrev clock : ℕ → ℤ
clock n = pos 60

abbrev fresh : ℕ → String
fresh n = "e"

abbrev name_in : Option Timer → Name
name_in none = ("", "")
name_in (some t) = name_of t

own_names : OwnNames encode decode like rows
unfolding find parse
own_names name cell t there e = elim (Bool-cases (same_name ("blue", "/timers/t1") name)) [
  | inl same ↦
      let holds : encode (object (record_of timer)) ≡ cell.value = ground (arith, there, same) in
      let e' = ap (timer_of encode decode) holds ∙ e in
      ap name_in (sym e') ∙ same_name-eq ("blue", "/timers/t1") name same
  | inr apart ↦ absurd (ground (arith, there, apart))
]

in_range : All (InRange encode decode (pos 60)) (load encode decode like true service)
unfolding load scan_all kv_scan escape_like replace replace_from begins parse boot ◌+ℤ◌
in_range = (omega arith, tt)

dispatch_example : IsQuiet encode decode (pos 60) (
    find
      (dispatch encode decode like true sound_disk clock fresh (pos 60) service).1.kv.table
      ("blue", "/timers/t1"))
unfolding escape_like replace replace_from begins boot
dispatch_example =
    dispatch-IsQuiet encode decode like reads_back clock fresh (pos 60) service own_names in_range
      ("blue", "/timers/t1") refl

fires_example :
    ((dispatch encode decode like true sound_disk clock fresh (pos 60) service).1.emitted
      ≡ service.emitted
        ++ fired_from encode decode clock fresh
            (length service.emitted)
            (retain (is_due encode decode (pos 60)) (load encode decode like true service)))
    × (pos 1 ≤ℤ (dispatch encode decode like true sound_disk clock fresh (pos 60) service).0)
    × ((dispatch encode decode like true sound_disk clock fresh (pos 60) service).0 ≤ℤ max_sleep_ms)
    × All
        (λ (t : Timer).
          (is_due encode decode (pos 60) t ≡ true)
          ⊎ ((dispatch encode decode like true sound_disk clock fresh (pos 60) service).0
              ≤ℤ max_ℤ (t.fire_at -ℤ pos 60) (pos 1)))
        (load encode decode like true service)
fires_example =
    dispatch_fires encode decode like true sound_disk clock fresh (pos 60) service (omega arith)
      (unfold tenon.Prelude.Int.◌+ℤ◌ in omega arith) in_range
