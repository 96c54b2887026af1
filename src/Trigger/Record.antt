-- ===== src/Trigger/Record.antt =====
-- The record of a rule in the durable store (`TriggerService::set` and `parse` of
-- rs/base/src/trigger.rs). The process id and the clock are arguments; the record is the JSON
-- value, since its text is written and read by `serde_json`.
use tenon.Prelude.{
  ℕ, ◌+◌, String, Bool, false, Option, none, some, List, [], ◌∷◌, ◌==◌, String_eq, Result, ok, err,
  if◌then◌else◌,
}
use tenon.Prelude.Int.{ℤ}
use tenon.Text.{◌<>◌}
use tenon.Decimal.{decimal}
use tenon.Json.{Value, bool, integer, string, array, object, Items, nil, cons, Fields, end, field}
use tenon.Bus.Tags.{Tags}
use tenon.Trigger.{Trigger}
use tenon.Trigger.Template.{get}
use tenon.Trigger.Fire.{as_str, or_null}

abbrev pub push_text : Value → List String → List String
push_text (string s) texts = s ∷ texts
push_text v texts = texts

-- `as_array`, its texts.
abbrev pub item_texts : Items → List String
item_texts nil = []
item_texts (cons v items) = push_text v (item_texts items)

abbrev pub texts_of : Option Value → List String
texts_of (some (array items)) = item_texts items
texts_of o = []

abbrev pub push_tag : String → Value → Tags → Tags
push_tag key (string s) tags = (key, s) ∷ tags
push_tag key v tags = tags

-- `as_object`, its entries with a text.
abbrev pub field_tags : Fields → Tags
field_tags end = []
field_tags (field key v fields) = push_tag key v (field_tags fields)

abbrev pub tags_of : Option Value → Tags
tags_of (some (object fields)) = field_tags fields
tags_of o = []

abbrev text_or : String → Option String → String
text_or d none = d
text_or d (some s) = s

abbrev is_true : Option Value → Bool
is_true (some (bool b)) = b
is_true o = false

abbrev parsed : String → Value → Option String → Option Trigger
parsed env rec none = none
parsed env rec (some id) = some (record {
  id = id;
  env = text_or env (as_str (get rec "env"));
  admin = is_true (get rec "admin");
  topics = texts_of (get (or_null (get rec "filter")) "topics");
  tags = tags_of (get (or_null (get rec "filter")) "tags");
  action = or_null (get rec "action");
})

-- `parse` of a record that is JSON.
unfoldable pub parse : String → Value → Option Trigger
parse env rec = parsed env rec (as_str (get rec "id"))

abbrev pub or_object : Option Value → Value
or_object none = object end
or_object (some v) = v

-- `trigger_id` if it is given and not empty, else `tg<pid>-<seq>`, which uses up a number.
abbrev pub given_id : ℕ → ℕ → Option String → String × ℕ
given_id pid seq none = ("tg" <> decimal pid <> "-" <> decimal seq, seq + 1)
given_id pid seq (some id) =
    if id == "" then ("tg" <> decimal pid <> "-" <> decimal seq, seq + 1) else (id, seq)

-- The record's keys, in the order of `json!`.
abbrev pub rule_record : String → Bool → Value → ℤ → String → Value
rule_record env admin body now id = object (
    field "id" (string id) (
      field "env" (string env) (
        field "admin" (bool admin) (
          field "filter" (or_object (get body "filter")) (
            field "action" (or_null (get body "action")) (field "created_at" (integer now) end))))))

abbrev set_as : String → Bool → Value → ℤ → String × ℕ → Result String (String × Value) × ℕ
set_as env admin body now (id, seq) = (ok (id, rule_record env admin body now id), seq)

abbrev pub typed :
    Option String → Result String (String × Value) × ℕ → ℕ → Result String (String × Value) × ℕ
typed none made seq = (err "trigger.set needs action.type", seq)
typed (some kind) made seq = made

-- `set` up to the store: the id and the record under it, or the refusal, and the next number.
unfoldable pub set_record : String → Bool → Value → ℤ → ℕ → ℕ → Result String (String × Value) × ℕ
set_record env admin body now pid seq =
    typed (as_str (get (or_null (get body "action")) "type"))
      (set_as env admin body now (given_id pid seq (as_str (get body "trigger_id")))) seq
