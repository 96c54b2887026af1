-- ===== src/Bus/Secret/Nowhere.antt =====
-- Where a text stands in a payload or in tags, told apart from the code's own search
-- (rs/bus/src/secret.rs), and what the guard lets through.
use tenon.Prelude.{
  ℕ, String, true, false, ◌≡◌, ◌≢◌, refl, subst, sym, some, List, [], ◌∷◌, ℕ_eq, String_eq,
  get_elem?, All, ok, arith, ◌==◌,
}
use Prim.Native.Char.{code}
use tenon.Text.{◌<>◌, begins, contains_str}
use tenon.Json.{
  Value, Items, Fields, null, bool, integer, float, string, array, object, nil, cons, end, field,
}
use tenon.Bus.Tags.{Tags}
use tenon.Bus.Secret.{Rule, contains, contains_items, contains_fields, tags_contain, scan_envelope}
use tenon.Bus.Secret.Mask.{Foreign}
use tenon.Bus.Secret.Guard.{passes-lacks}

-- The text has the needle in it, with something before and something after.
abbrev pub Occurs : String → String → Type 0
Occurs needle text = (before : String) × (after : String) × (text ≡ before <> (needle <> after))

-- A string of the payload has the needle in it: the payload itself, an element of an array or a
-- value of an object, at any depth. A key of an object is none of these.
mutual
  pub data Holds (needle : String) : Value → Type 0 where
    in_text : {text : String} → Occurs needle text → Holds needle (string text)
    in_array : {items : Items} → InItems needle items → Holds needle (array items)
    in_object : {fields : Fields} → InFields needle fields → Holds needle (object fields)

  pub data InItems (needle : String) : Items → Type 0 where
    item : {v : Value} {items : Items} → Holds needle v → InItems needle (cons v items)
    items_after : {v : Value} {items : Items} → InItems needle items → InItems needle (cons v items)

  pub data InFields (needle : String) : Fields → Type 0 where
    entry :
        {k : String} {v : Value} {fields : Fields}
        → Holds needle v
        → InFields needle (field k v fields)
    entries_after :
        {k : String} {v : Value} {fields : Fields}
        → InFields needle fields
        → InFields needle (field k v fields)

begins-append : (needle after : String) → begins needle (needle <> after) ≡ true
unfolding begins
begins-append String.[] after = refl
begins-append (String.◌∷◌ c n) after =
    ground (arith, (ℕ_eq.beq_iff (code c) (code c)).1 refl, begins-append n after)

contains_str-here : (needle s : String) → begins needle s ≡ true → contains_str needle s ≡ true
unfolding contains_str
contains_str-here needle String.[] h = h
contains_str-here needle (String.◌∷◌ c s) h = ground (arith, h)

contains_str-append :
    (needle before after : String) → contains_str needle (before <> (needle <> after)) ≡ true
unfolding contains_str
contains_str-append needle String.[] after =
    contains_str-here needle (needle <> after) (begins-append needle after)
contains_str-append needle (String.◌∷◌ c before) after =
    ground (arith, contains_str-append needle before after)

found : (needle text : String) → Occurs needle text → contains_str needle text ≡ true
found needle text (before, after, e) =
    subst (λ t. contains_str needle t ≡ true) (sym e) (contains_str-append needle before after)

module _ (needle : String) (some_char : needle ≢ "") where
  full : (needle == "") ≡ false
  full = ground (arith, (String_eq.beq_iff needle "").0, some_char)

  mutual
    unfolding contains contains_items contains_fields

    Holds-found : (v : Value) → Holds needle v → contains needle v ≡ true
    Holds-found null h = elim h [ ]
    Holds-found (bool b) h = elim h [ ]
    Holds-found (integer n) h = elim h [ ]
    Holds-found (float bits) h = elim h [ ]
    Holds-found (string text) (in_text h) = ground (arith, full, found needle text h)
    Holds-found (array items) (in_array h) = ground (arith, full, items-found items h)
    Holds-found (object fields) (in_object h) = ground (arith, full, fields-found fields h)

    items-found : (items : Items) → InItems needle items → contains_items needle items ≡ true
    items-found nil h = elim h [ ]
    items-found (cons v items) (item h) = ground (arith, Holds-found v h)
    items-found (cons v items) (items_after h) = ground (arith, items-found items h)

    fields-found : (fields : Fields) → InFields needle fields → contains_fields needle fields ≡ true
    fields-found end h = elim h [ ]
    fields-found (field k v fields) (entry h) = ground (arith, Holds-found v h)
    fields-found (field k v fields) (entries_after h) = ground (arith, fields-found fields h)

  absent-each :
      (tags : Tags)
      → tags_contain tags needle ≡ false
      → All (λ (t : String × String). (¬ Occurs needle t.0) × (¬ Occurs needle t.1)) tags
  unfolding tags_contain
  absent-each [] h = tt
  absent-each ((key, value) ∷ tags) h = (
    (
      (λ o. ground (arith, h, full, found needle key o)),
      (λ o. ground (arith, h, full, found needle value o)),
    ),
    absent-each tags (ground (arith, h, full)),
  )

-- If every mask leaves only characters that a secret's value lacks, and that value is not empty, then
-- whatever payload and tags the guard lets through have it nowhere between other text or alone: not
-- in a string value of the payload at any depth (keys of objects are not spoken of), and not in a
-- key or value of a tag, whether the secret is masked or blocked.
pub scan_envelope-clean :
    (rules : List Rule) (i : ℕ) (r : Rule) (payload out : Value) (tags out_tags : Tags)
    → get_elem? rules i ≡ some r
    → r.value ≢ ""
    → All (λ q. Foreign r.value q.name) rules
    → scan_envelope rules payload tags ≡ ok (out, out_tags)
    → (¬ Holds r.value out)
      × All (λ (t : String × String). (¬ Occurs r.value t.0) × (¬ Occurs r.value t.1)) out_tags
scan_envelope-clean rules i r payload out tags out_tags at some_char f h =
    let (lacks, tags_lack) = passes-lacks rules i r payload out tags out_tags at some_char f h in
    (
      λ held. ground (arith, lacks, Holds-found r.value some_char out held),
      absent-each r.value some_char out_tags tags_lack,
    )
