-- ===== src/Trigger/Restored.antt =====
-- What a request to set a rule means, told apart from the code that reads it
-- (`TriggerService::set` and `parse` of rs/base/src/trigger.rs), and that the rule read back is it.
use tenon.Prelude.{
  ℕ, String, Bool, ◌≡◌, refl, ap, subst, Option, none, some, List, [], ◌∷◌, Result, ok, err, arith,
}
use tenon.Prelude.Int.{ℤ}
use tenon.Json.{
  Value, null, bool, integer, float, string, array, object, Items, nil, cons, Fields, end, field,
}
use tenon.Bus.Tags.{Tags}
use tenon.Trigger.{Trigger}
use tenon.Trigger.Template.{get}
use tenon.Trigger.Fire.{as_str, or_null}
use tenon.Trigger.Record.{
  parse, set_record, typed, given_id, rule_record, texts_of, item_texts, push_text, tags_of,
  field_tags, push_tag, or_object,
}

abbrev IsText : Value → Type 0
IsText v = (text : String) × (v ≡ string text)

-- The strings among the elements of an array, in order.
pub data TextsIn : Items → List String → Type 0 where
  no_items : TextsIn nil []
  text :
      {s : String} {items : Items} {texts : List String}
      → TextsIn items texts
      → TextsIn (cons (string s) items) (s ∷ texts)
  no_text :
      {v : Value} {items : Items} {texts : List String}
      → ¬ IsText v
      → TextsIn items texts
      → TextsIn (cons v items) texts

pub data TopicsOf : Option Value → List String → Type 0 where
  an_array :
      {items : Items} {texts : List String}
      → TextsIn items texts
      → TopicsOf (some (array items)) texts
  no_array : {o : Option Value} → ¬ ((items : Items) × (o ≡ some (array items))) → TopicsOf o []

-- The entries of an object whose value is a string, in order.
pub data PairsIn : Fields → Tags → Type 0 where
  no_fields : PairsIn end []
  pair :
      {key s : String} {fields : Fields} {tags : Tags}
      → PairsIn fields tags
      → PairsIn (field key (string s) fields) ((key, s) ∷ tags)
  no_pair :
      {key : String} {v : Value} {fields : Fields} {tags : Tags}
      → ¬ IsText v
      → PairsIn fields tags
      → PairsIn (field key v fields) tags

pub data TagsOf : Option Value → Tags → Type 0 where
  an_object :
      {fields : Fields} {tags : Tags} → PairsIn fields tags → TagsOf (some (object fields)) tags
  no_object : {o : Option Value} → ¬ ((fields : Fields) × (o ≡ some (object fields))) → TagsOf o []

-- A field of the request's filter, if there are both.
abbrev pub filter_field : Value → String → Option Value
filter_field body key = elim (get body "filter") [ none ↦ none | some filter ↦ get filter key ]

-- The request names the type of its action.
abbrev pub IsTyped : Value → Type 0
IsTyped body =
    (action : Value) × (kind : String) × (get body "action" ≡ some action)
    × (get action "type" ≡ some (string kind))

pub record Reloads (env : String) (admin : Bool) (body : Value) (id : String) (rule : Trigger)
    : Type 0 where
  pub id_kept : rule.id ≡ id
  pub env_kept : rule.env ≡ env
  pub admin_kept : rule.admin ≡ admin
  pub action_kept : get body "action" ≡ some rule.action
  pub topics_kept : TopicsOf (filter_field body "topics") rule.topics
  pub tags_kept : TagsOf (filter_field body "tags") rule.tags

abbrev pub Restores : String → Bool → Value → String → Result String (String × Value) × ℕ → Type 0
Restores env admin body row_env (err reason, seq) = ¬ IsTyped body
Restores env admin body row_env (ok (id, rec), seq) =
    IsTyped body
    × (rule : Trigger) × (parse row_env rec ≡ some rule)
    × Reloads env admin body id rule

push_text-TextsIn :
    (v : Value) (items : Items) (texts : List String)
    → TextsIn items texts
    → TextsIn (cons v items) (push_text v texts)
push_text-TextsIn (string s) items texts h = text h
push_text-TextsIn null items texts h = no_text (λ e. absurd (ground (arith, e.1))) h
push_text-TextsIn (bool b) items texts h = no_text (λ e. absurd (ground (arith, e.1))) h
push_text-TextsIn (integer n) items texts h = no_text (λ e. absurd (ground (arith, e.1))) h
push_text-TextsIn (float n) items texts h = no_text (λ e. absurd (ground (arith, e.1))) h
push_text-TextsIn (array a) items texts h = no_text (λ e. absurd (ground (arith, e.1))) h
push_text-TextsIn (object o) items texts h = no_text (λ e. absurd (ground (arith, e.1))) h

item_texts-TextsIn : (items : Items) → TextsIn items (item_texts items)
item_texts-TextsIn nil = no_items
item_texts-TextsIn (cons v items) =
    push_text-TextsIn v items (item_texts items) (item_texts-TextsIn items)

texts_of-TopicsOf : (o : Option Value) → TopicsOf o (texts_of o)
texts_of-TopicsOf (some (array items)) = an_array (item_texts-TextsIn items)
texts_of-TopicsOf none = no_array (λ e. absurd (ground (arith, e.1)))
texts_of-TopicsOf (some null) = no_array (λ e. absurd (ground (arith, e.1)))
texts_of-TopicsOf (some (bool b)) = no_array (λ e. absurd (ground (arith, e.1)))
texts_of-TopicsOf (some (integer n)) = no_array (λ e. absurd (ground (arith, e.1)))
texts_of-TopicsOf (some (float n)) = no_array (λ e. absurd (ground (arith, e.1)))
texts_of-TopicsOf (some (string s)) = no_array (λ e. absurd (ground (arith, e.1)))
texts_of-TopicsOf (some (object o)) = no_array (λ e. absurd (ground (arith, e.1)))

push_tag-PairsIn :
    (key : String) (v : Value) (fields : Fields) (tags : Tags)
    → PairsIn fields tags
    → PairsIn (field key v fields) (push_tag key v tags)
push_tag-PairsIn key (string s) fields tags h = pair h
push_tag-PairsIn key null fields tags h = no_pair (λ e. absurd (ground (arith, e.1))) h
push_tag-PairsIn key (bool b) fields tags h = no_pair (λ e. absurd (ground (arith, e.1))) h
push_tag-PairsIn key (integer n) fields tags h = no_pair (λ e. absurd (ground (arith, e.1))) h
push_tag-PairsIn key (float n) fields tags h = no_pair (λ e. absurd (ground (arith, e.1))) h
push_tag-PairsIn key (array a) fields tags h = no_pair (λ e. absurd (ground (arith, e.1))) h
push_tag-PairsIn key (object o) fields tags h = no_pair (λ e. absurd (ground (arith, e.1))) h

field_tags-PairsIn : (fields : Fields) → PairsIn fields (field_tags fields)
field_tags-PairsIn end = no_fields
field_tags-PairsIn (field key v fields) =
    push_tag-PairsIn key v fields (field_tags fields) (field_tags-PairsIn fields)

tags_of-TagsOf : (o : Option Value) → TagsOf o (tags_of o)
tags_of-TagsOf (some (object fields)) = an_object (field_tags-PairsIn fields)
tags_of-TagsOf none = no_object (λ e. absurd (ground (arith, e.1)))
tags_of-TagsOf (some null) = no_object (λ e. absurd (ground (arith, e.1)))
tags_of-TagsOf (some (bool b)) = no_object (λ e. absurd (ground (arith, e.1)))
tags_of-TagsOf (some (integer n)) = no_object (λ e. absurd (ground (arith, e.1)))
tags_of-TagsOf (some (float n)) = no_object (λ e. absurd (ground (arith, e.1)))
tags_of-TagsOf (some (string s)) = no_object (λ e. absurd (ground (arith, e.1)))
tags_of-TagsOf (some (array a)) = no_object (λ e. absurd (ground (arith, e.1)))

-- The filter that is stored is the request's, or an empty one.
filter_same :
    (o : Option Value) (key : String)
    → get (or_object o) key ≡ (elim o [ none ↦ none | some filter ↦ get filter key ])
filter_same none key = refl
filter_same (some filter) key = refl

as_str-string : (o : Option Value) (s : String) → as_str o ≡ some s → o ≡ some (string s)
as_str-string (some (string t)) s e = ground (arith, e)
as_str-string none s e = absurd (ground (arith, e))
as_str-string (some null) s e = absurd (ground (arith, e))
as_str-string (some (bool b)) s e = absurd (ground (arith, e))
as_str-string (some (integer n)) s e = absurd (ground (arith, e))
as_str-string (some (float n)) s e = absurd (ground (arith, e))
as_str-string (some (array a)) s e = absurd (ground (arith, e))
as_str-string (some (object o)) s e = absurd (ground (arith, e))

action_named :
    (o : Option Value) (kind : String)
    → as_str (get (or_null o) "type") ≡ some kind
    → (o ≡ some (or_null o)) × (get (or_null o) "type" ≡ some (string kind))
action_named none kind e = absurd (ground (arith, e))
action_named (some action) kind e = (refl, as_str-string (get action "type") kind e)

untyped : (body : Value) → as_str (get (or_null (get body "action")) "type") ≡ none → ¬ IsTyped body
untyped body none_there (action, kind, there, named) =
    let same = ap (λ (o : Option Value). as_str (get (or_null o) "type")) there in
    let kinds = ap as_str named in absurd (ground (arith, none_there, same, kinds))

typed-Restores :
    (env : String) (admin : Bool) (body : Value) (row_env : String) (now : ℤ) (seq seq' : ℕ)
    → (id : String) (o : Option String) → as_str (get (or_null (get body "action")) "type") ≡ o
    → Restores env admin body row_env
        (typed o (ok (id, rule_record env admin body now id), seq') seq)
unfolding parse
typed-Restores env admin body row_env now seq seq' id none e = untyped body e
typed-Restores env admin body row_env now seq seq' id (some kind) e =
    let (there, named) = action_named (get body "action") kind e in
    (
      (or_null (get body "action"), kind, there, named),
      _,
      refl,
      record {
        id_kept = refl;
        env_kept = refl;
        admin_kept = refl;
        action_kept = there;
        topics_kept =
            subst (λ o. TopicsOf o (texts_of (get (or_object (get body "filter")) "topics")))
              (filter_same (get body "filter") "topics")
              (texts_of-TopicsOf (get (or_object (get body "filter")) "topics"));
        tags_kept =
            subst (λ o. TagsOf o (tags_of (get (or_object (get body "filter")) "tags")))
              (filter_same (get body "filter") "tags")
              (tags_of-TagsOf (get (or_object (get body "filter")) "tags"));
      },
    )

-- What `set` does before it writes: it refuses exactly the requests whose action names no type; for
-- any other, the record that it hands to the store, read back under any env, is a rule with the id
-- that is answered, with the caller's env and rank, with the action of the request, with the
-- strings of its filter's array of topics, in their order, and with the entries of its filter's
-- object of tags that are strings.
pub set_record-Restores :
    (env : String) (admin : Bool) (body : Value) (now : ℤ) (pid seq : ℕ) (row_env : String)
    → Restores env admin body row_env (set_record env admin body now pid seq)
unfolding set_record
set_record-Restores env admin body now pid seq row_env =
    let made = given_id pid seq (as_str (get body "trigger_id")) in
    typed-Restores env admin body row_env now seq made.1 made.0 _ refl
