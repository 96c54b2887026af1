-- ===== src/Bus/Secret.antt =====
-- The leak guard (rs/bus/src/secret.rs): the secrets it knows, and the walk over a payload and
-- over tags that blocks a publish or masks a value.
pub mod Mask
pub mod Guard
pub mod Nowhere
use tenon.Prelude.{
  String, Bool, true, false, ◌&&◌, ◌||◌, Option, none, some, List, [], ◌∷◌, ◌==◌, String_eq, any,
  is_empty, Result, ok, err, if◌then◌else◌,
}
use tenon.Text.{◌<>◌, contains_str, replace}
use tenon.Json.{
  Value, Items, Fields, null, bool, integer, float, string, array, object, nil, cons, end, field,
}
use tenon.Bus.Tags
use tenon.Bus.Tags.{Tags}

pub data Leak : Type 0 where
  mask block : Leak

unfoldable pub parse : String → Leak
parse t = if t == "block" then block else mask

pub record Rule : Type 0 where
  pub name : String
  pub value : String
  pub leak : Leak

abbrev pub marker : String → String
marker name = "***" <> name <> "***"

abbrev is_block : Leak → Bool
is_block mask = false
is_block block = true

-- Object keys are not looked at: the walk takes `map.values()`.
unfoldable mutual
  pub contains : String → Value → Bool
  contains needle null = false
  contains needle (bool b) = false
  contains needle (integer i) = false
  contains needle (float bits) = false
  contains needle (string t) = if needle == "" then false else contains_str needle t
  contains needle (array rows) = if needle == "" then false else contains_items needle rows
  contains needle (object map) = if needle == "" then false else contains_fields needle map

  pub contains_items : String → Items → Bool
  contains_items needle nil = false
  contains_items needle (cons row rows) = contains needle row || contains_items needle rows

  pub contains_fields : String → Fields → Bool
  contains_fields needle end = false
  contains_fields needle (field key row map) = contains needle row || contains_fields needle map

abbrev mask_text : String → String → String → String
mask_text needle name t = if contains_str needle t then replace needle (marker name) t else t

unfoldable mutual
  pub mask_value : String → String → Value → Value
  mask_value needle name null = null
  mask_value needle name (bool b) = bool b
  mask_value needle name (integer i) = integer i
  mask_value needle name (float bits) = float bits
  mask_value needle name (string t) =
      if needle == "" then string t else string (mask_text needle name t)
  mask_value needle name (array rows) =
      if needle == "" then array rows else array (mask_items needle name rows)
  mask_value needle name (object map) =
      if needle == "" then object map else object (mask_fields needle name map)

  pub mask_items : String → String → Items → Items
  mask_items needle name nil = nil
  mask_items needle name (cons row rows) =
      cons (mask_value needle name row) (mask_items needle name rows)

  pub mask_fields : String → String → Fields → Fields
  mask_fields needle name end = end
  mask_fields needle name (field key row map) =
      field key (mask_value needle name row) (mask_fields needle name map)

unfoldable pub tags_contain : Tags → String → Bool
tags_contain tags needle =
    if needle == ""
    then false
    else any (λ t. contains_str needle t.0 || contains_str needle t.1) tags

-- `into_iter().map(…).collect()`: the rewritten entries, inserted in turn.
unfoldable pub collect : String → String → Tags → Tags → Tags
collect needle to [] out = out
collect needle to ((key, value) ∷ tags) out =
    collect needle to tags (Tags.insert (replace needle to key) (replace needle to value) out)

unfoldable pub mask_tags : Tags → String → String → Tags
mask_tags tags needle name =
    if needle == ""
    then tags
    else if is_empty tags
    then tags
    else if tags_contain tags needle
    then collect needle (marker name) tags []
    else tags

-- The name of the first `block` rule whose value the test finds.
unfoldable pub blocked_by : (Rule → Bool) → List Rule → Option String
blocked_by found [] = none
blocked_by found (rule ∷ rules) =
    if is_block rule.leak && found rule then some rule.name else blocked_by found rules

-- The masking loop over a payload, and over a payload and its tags.
unfoldable pub mask_all : List Rule → Value → Value
mask_all [] payload = payload
mask_all (rule ∷ rules) payload =
    mask_all rules (if is_block rule.leak then payload else mask_value rule.value rule.name payload)

unfoldable pub mask_all_tags : List Rule → Tags → Tags
mask_all_tags [] tags = tags
mask_all_tags (rule ∷ rules) tags =
    mask_all_tags rules (if is_block rule.leak then tags else mask_tags tags rule.value rule.name)

abbrev verdict : {A : Type 0} → Option String → A → Result String A
verdict none a = ok a
verdict (some name) a = err name

unfoldable pub scan : List Rule → Value → Result String Value
scan rules payload =
    if is_empty rules
    then ok payload
    else verdict (blocked_by (λ rule. contains rule.value payload) rules) (mask_all rules payload)

unfoldable pub scan_envelope : List Rule → Value → Tags → Result String (Value × Tags)
scan_envelope rules payload tags =
    if is_empty rules
    then ok (payload, tags)
    else verdict
        (blocked_by (λ rule. contains rule.value payload || tags_contain tags rule.value) rules)
        (mask_all rules payload, mask_all_tags rules tags)
