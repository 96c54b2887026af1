-- ===== src/Approvals/Gate.antt =====
-- The ways into the approval queue (rs/base/src/approvals.rs): an env's own request, whose mode its
-- overlay may loosen, and a gate, which takes base's mode and resumes the held action or refuses it.
use tenon.Prelude.{ℕ, String, Option, none, some, ok, err, ◌==◌, String_eq, if◌then◌else◌}
use tenon.Prelude.Int.{pos}
use tenon.Text.{◌<>◌}
use tenon.Decimal.{decimal}
use tenon.Json.{Value, string, object, integer}
use tenon.Trigger.Template.{get}
use tenon.Trigger.Fire.{as_str}
use tenon.ApprovalRows.{status_text}
use tenon.Approvals.{Answer, Verdict, Queue, Config, World, decide}

abbrev text_else : String → Option String → String
text_else fallback none = fallback
text_else fallback (some text) = text

-- `text_or`
abbrev pub text_or : Value → String → String → String
text_or params key fallback = text_else fallback (as_str (get params key))

abbrev as_u64_else : ℕ → Option Value → ℕ
as_u64_else fallback (some (integer (pos n))) = n
as_u64_else fallback _ = fallback

-- `u64_or`
abbrev pub u64_or : Value → String → ℕ → ℕ
u64_or params key fallback = as_u64_else fallback (get params key)

abbrev pub gate_mode : Config → String × ℕ
gate_mode config = (config.mode, config.timeout_s)

abbrev mode_of : Config → Option Value → String × ℕ
mode_of config (some (string mode)) = (mode, config.timeout_s)
mode_of config (some (object fields)) = (
  text_or (object fields) "mode" config.mode,
  u64_or (object fields) "timeout_s" config.timeout_s,
)
mode_of config _ = (config.mode, config.timeout_s)

-- `approval_mode`: `overlay` is the env's configuration as it was read, and an empty object if it could
-- not be.
unfoldable pub approval_mode : Config → Value → String × ℕ
approval_mode config overlay = mode_of config (get overlay "approval")

unfoldable pub approval_request :
    World → Config → Value → String → String → String → ℕ → Queue → Queue
approval_request w config overlay env reason kind channel q =
    decide w config env reason kind (approval_mode config overlay) channel q

unfoldable pub gate_request : World → Config → String → String → String → ℕ → Queue → Queue
gate_request w config env reason kind channel q =
    decide w config env reason kind (gate_mode config) channel q

-- What the task behind a gate does with its caller's reply.
pub data Outcome : Type 0 where
  resumed : Outcome
  refused : String → Outcome

abbrev id_json : Option ℕ → String
id_json none = "null"
id_json (some id) = decimal id

abbrev on_verdict : String → Verdict → Outcome
on_verdict kind v =
    if status_text v.status == "approved"
    then resumed
    else refused (
        kind
        <> " needs a human: approval "
        <> id_json v.id
        <> " is \""
        <> status_text v.status
        <> "\"")

-- The task of `gate`, on the answer that comes: none if the channel was dropped.
unfoldable pub gate_outcome : String → Option Answer → Outcome
gate_outcome kind none = refused "the approval queue is gone"
gate_outcome kind (some (err error)) = refused error
gate_outcome kind (some (ok v)) = on_verdict kind v
