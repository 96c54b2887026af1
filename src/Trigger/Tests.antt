-- ===== src/Trigger/Tests.antt =====
-- Runs of the triggers: two rules that publish into each other, a rate, and a stored rule.
use tenon.Prelude.{◌+◌, ◌≤◌, String, Bool, false, refl, none, some, [], ◌∷◌, String_eq, arith}
use tenon.Prelude.Int.{pos, ◌-ℤ◌}
use tenon.Json.{Value, null, string, object, end, field, array, cons, nil}
use tenon.Bus.Level
use tenon.Bus.Envelope
use tenon.Bus.Envelope.{Envelope, normalize}
use tenon.Text.{split_slash}
use tenon.Bus.Filter.{glob, seg_match}
use tenon.Bus.Hub
use tenon.Bus.Hub.{Hub, guard}
use tenon.Trigger.{Trigger, TriggerConfig, default_config, on_envelope, matching, matches}
use tenon.Trigger.Template.{render}
use tenon.Trigger.Fire.{fire, act, act_publish, triggered}
use tenon.Trigger.Cascade.{start, step, Bounded, Cascade-Bounded}
use tenon.Trigger.Budget.{granted_to, granted-le}
use tenon.Trigger.Record.{set_record}
use tenon.Trigger.Restored.{Restores, set_record-Restores}

abbrev print : Value → String
print v = ""

abbrev blank : String → Bool
blank s = false

abbrev echo_action : Value
echo_action = object (field "type" (string "publish") (field "topic" (string "pong") end))

abbrev echo : Trigger
echo = record {
  id = "t1";
  env = "blue";
  admin = false;
  topics = "ping" ∷ [];
  tags = [];
  action = echo_action;
}

abbrev ping : Envelope
ping = record (Envelope.new (pos 5) "e1" "ping" Level.info null) { env = some "blue" }

abbrev pong : Envelope
pong = triggered (pos 6) "e2" echo ping "pong" null

cascade_example : Bounded print blank default_config 1 ping pong
unfolding on_envelope matching matches glob seg_match split_slash fire act act_publish render guard
    normalize Hub.new
cascade_example = Cascade-Bounded print blank default_config (omega arith) (omega arith) (
    step {sent = pong} start (echo ∷ []) 0 echo refl false (pos 6) "e2" (λ id. none) refl "e3"
      (Hub.new Hub.absent 0) refl)

abbrev two_a_minute : TriggerConfig
two_a_minute = record default_config { calls_per_min = 2 }

rate_example :
    granted_to two_a_minute "t1"
        (λ id. some (pos 0, 1))
        ((pos 10, "t1") ∷ (pos 20, "t2") ∷ (pos 30, "t1") ∷ [])
      + 1
    ≤ 2
unfolding ◌-ℤ◌
rate_example =
    granted-le two_a_minute "t1" (pos 0) (λ e. absurd (omega (arith, e)))
      ((pos 10, "t1") ∷ (pos 20, "t2") ∷ (pos 30, "t1") ∷ []) (λ id. some (pos 0, 1)) 1 refl
      (omega arith) (omega arith, (omega arith, (omega arith, tt)))

abbrev rule_request : Value
rule_request = object (
    field "filter"
      (object (
        field "topics" (array (cons (string "ping") (cons null (cons (string "pong") nil))))
          (field "tags" (object (field "kind" (string "x") end)) end)))
      (field "action" echo_action end))

stored_example :
    Restores "blue" false rule_request "green" (set_record "blue" false rule_request (pos 7) 12 3)
stored_example = set_record-Restores "blue" false rule_request (pos 7) 12 3 "green"
