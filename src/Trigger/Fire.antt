-- ===== src/Trigger/Fire.antt =====
-- One firing of a rule (`fire`, `act_publish`, `act_http_post` and `act_prompt` of
-- rs/base/src/trigger.rs). What an action asks of the hub, of the HTTP client or of the base's
-- socket is a value; `approved` is the answer of the approval call, `now` and `fresh` are the
-- clock's and the id generator's.
use tenon.Prelude.{
  ℕ, zero, suc, ◌+◌, ◌*◌, ◌^◌, ◌%◌, max, min, String, Bool, not, ◌&&◌, Option, none, some, List, [],
  ◌∷◌, ◌==◌, String_eq, contains, ltb, if◌then◌else◌,
}
use tenon.Prelude.Int.{ℤ}
use tenon.Json.{Value, null, string}
use tenon.Bus.Level
use tenon.Bus.Envelope
use tenon.Bus.Envelope.{Envelope}
use tenon.Trigger.{TriggerConfig, Trigger, Budgets, spend}
use tenon.Trigger.Template.{get, render, or_empty}

abbrev pub as_str : Option Value → Option String
as_str (some (string s)) = some s
as_str o = none

abbrev pub or_null : Option Value → Value
or_null none = null
or_null (some v) = v

abbrev or_text : Option Value → Value
or_text none = string ""
or_text (some v) = v

-- What a firing asks for.
pub data Effect : Type 0 where
  idle : Effect
  publish : Envelope → Effect
  http_post : String → Value → Envelope → Effect
  prompt : String → String → Effect

-- The env that a `prompt` action reaches.
abbrev pub target : Trigger → Option String → String
target rule none = rule.env
target rule (some env) = if env == rule.env then rule.env else if rule.admin then env else rule.env

-- `hop + 1` on `u32`
abbrev pub next_hop : Envelope → ℕ
next_hop source = (source.hop + 1) % 2 ^ 32

abbrev pub triggered : ℤ → String → Trigger → Envelope → String → Value → Envelope
triggered now fresh rule source topic payload =
    record (Envelope.new now fresh topic Level.info payload) {
      env = some rule.env;
      src = "trigger";
      hop = next_hop source;
    }

-- The loop of `act_http_post`, where `succeeds i` is the answer to the request of attempt `i`: the
-- delays slept, one for each request that did not succeed.
unfoldable pub attempts : ℕ → ℕ → (ℕ → Bool) → List ℕ
attempts zero attempt succeeds = []
attempts (suc tries) attempt succeeds =
    let more = attempts tries (attempt + 1) succeeds in
    if succeeds attempt then [] else 100 * 2 ^ min attempt 5 ∷ more

unfoldable pub retry_delays : TriggerConfig → (ℕ → Bool) → List ℕ
unfolding attempts
retry_delays config succeeds = attempts (max config.http_retries 1) 0 succeeds

-- `print` is `Value::to_string`, `blank` tells whether `trim` leaves nothing of a text.
module _ (print : Value → String) (blank : String → Bool) where
  abbrev pub publish_topic : ℤ → String → Trigger → Envelope → Option String → Effect
  publish_topic now fresh rule source none = idle
  publish_topic now fresh rule source (some topic) = publish (
      triggered now fresh rule source topic
        (render print source (or_null (get rule.action "payload_template"))))

  unfoldable pub act_publish : TriggerConfig → ℤ → String → Trigger → Envelope → Effect
  act_publish config now fresh rule source =
      if ltb config.hop_cap (next_hop source)
      then idle
      else publish_topic now fresh rule source (as_str (get rule.action "topic"))

  abbrev pub post_to : Trigger → Envelope → Option String → Effect
  post_to rule source none = idle
  post_to rule source (some url) = http_post url (or_null (get rule.action "headers")) source

  -- The slot is spent before the url is looked for.
  unfoldable pub act_http_post : TriggerConfig → ℤ → Trigger → Envelope → Budgets → Effect × Budgets
  act_http_post config now rule source budgets =
      let (granted, budgets') = spend config now rule.id budgets in
      (if granted then post_to rule source (as_str (get rule.action "url")) else idle, budgets')

  abbrev text_of : Value → String
  text_of (string s) = s
  text_of v = print v

  abbrev pub prompted : Trigger → String → Effect
  prompted rule text =
      if blank text then idle else prompt (target rule (as_str (get rule.action "env"))) text

  unfoldable pub act_prompt : Trigger → Envelope → Effect
  act_prompt rule source =
      prompted rule (text_of (render print source (or_text (get rule.action "text_template"))))

  unfoldable pub act :
      TriggerConfig → ℤ → String → String → Trigger → Envelope → Budgets → Effect × Budgets
  act config now fresh kind rule source budgets =
      if kind == "publish"
      then (act_publish config now fresh rule source, budgets)
      else if kind == "http_post"
      then act_http_post config now rule source budgets
      else if kind == "prompt"
      then (act_prompt rule source, budgets)
      else (idle, budgets)

  -- A gated action waits for the approval call; a refusal ends the firing.
  unfoldable pub fire :
      TriggerConfig → Bool → ℤ → String → Trigger → Envelope → Budgets → Effect × Budgets
  fire config approved now fresh rule source budgets =
      let kind = or_empty (as_str (get rule.action "type")) in
      if contains config.gated_actions kind && not approved
      then (idle, budgets)
      else act config now fresh kind rule source budgets
