-- ===== src/Trigger/Template.antt =====
-- The templates of an action (`render`, `substitute` and `resolve` of rs/base/src/trigger.rs).
use Prim.Native.Char.{Char}
use tenon.Prelude.{ℕ, zero, suc, String, Option, none, some, ◌==◌, ℕ_eq, String_eq, if◌then◌else◌}
use tenon.Text.{◌<>◌, begins, count}
use tenon.Json.{
  Value, null, bool, integer, float, string, array, object, Items, nil, cons, Fields, end, field,
}
use tenon.Bus.Envelope.{Envelope}

abbrev pub find_field : Fields → String → Option Value
find_field end key = none
find_field (field k v rest) key = if k == key then some v else find_field rest key

-- `value.get(key)`
abbrev pub get : Value → String → Option Value
get (object fields) key = find_field fields key
get v key = none

abbrev pub or_empty : Option String → String
or_empty none = ""
or_empty (some s) = s

abbrev pub cut_more : Char → Option (String × String) → Option (String × String)
cut_more c none = none
cut_more c (some (before, after)) = some (String.◌∷◌ c before, after)

-- The text before the first `needle` and the text after it.
abbrev pub skip : ℕ → String → String
skip zero s = s
skip (suc n) String.[] = String.[]
skip (suc n) (String.◌∷◌ c s) = skip n s

unfoldable pub cut : String → String → Option (String × String)
cut needle String.[] = none
cut needle (String.◌∷◌ c s) =
    let later = cut_more c (cut needle s) in
    if begins needle (String.◌∷◌ c s)
    then some ("", skip (count needle) (String.◌∷◌ c s))
    else later

-- The field's name in `payload.<name>`.
abbrev payload_field : String → Option String
payload_field key = if begins "payload." key then some (skip 8 key) else none

-- `print` is `Value::to_string` of `serde_json`.
module _ (print : Value → String) where
  abbrev field_text : Option Value → String
  field_text none = ""
  field_text (some (string s)) = s
  field_text (some v) = print v

  abbrev payload_text : Option String → Envelope → String
  payload_text none e = ""
  payload_text (some name) e = field_text (get e.payload name)

  unfoldable pub resolve : String → Envelope → String
  resolve key e =
      if key == "topic"
      then e.topic
      else if key == "env"
      then or_empty e.env
      else if key == "session"
      then or_empty e.session
      else payload_text (payload_field key) e

  -- What follows `${`: a key up to the next `}`, or the rest as it stands.
  abbrev pub after_open : Envelope → String → (String → String) → Option (String × String) → String
  after_open e rest more none = "${" <> rest
  after_open e rest more (some (key, after)) = resolve key e <> more after

  abbrev pub at_open : Envelope → String → (String → String) → Option (String × String) → String
  at_open e rest more none = rest
  at_open e rest more (some (before, after)) = before <> after_open e after more (cut "}" after)

  -- The loop of `substitute`; each round shortens the rest, so the length is fuel enough.
  unfoldable pub substitute_from : ℕ → Envelope → String → String
  substitute_from zero e rest = rest
  substitute_from (suc fuel) e rest = at_open e rest (substitute_from fuel e) (cut "${" rest)

  unfoldable pub substitute : Envelope → String → String
  substitute e text = substitute_from (count text) e text

  unfoldable mutual
    pub render : Envelope → Value → Value
    render e null = e.payload
    render e (bool b) = bool b
    render e (integer n) = integer n
    render e (float f) = float f
    render e (string text) = if text == "${payload}" then e.payload else string (substitute e text)
    render e (array items) = array (render_items e items)
    render e (object fields) = object (render_fields e fields)

    pub render_items : Envelope → Items → Items
    render_items e nil = nil
    render_items e (cons v items) = cons (render e v) (render_items e items)

    pub render_fields : Envelope → Fields → Fields
    render_fields e end = end
    render_fields e (field key v fields) = field key (render e v) (render_fields e fields)
