-- ===== src/Bus/Tags.antt =====
-- The tags of an envelope, a `BTreeMap<String, String>`: entries in the order of their keys.
use Prim.Native.Nat.{Ordering}
use Prim.Native.String.{compare}
use tenon.Prelude.{String, Option, none, some, List, [], ◌∷◌, ◌==◌, String_eq, if◌then◌else◌}

abbrev pub Tags : Type 0
Tags = List (String × String)

-- `tags.get(key)`
unfoldable pub get : Tags → String → Option String
get [] key = none
get ((k, v) ∷ tags) key = if k == key then some v else get tags key

-- `tags.insert(key, value)`: an equal key takes the new value.
unfoldable pub insert : String → String → Tags → Tags
insert key value [] = (key, value) ∷ []
insert key value ((k, v) ∷ tags) = elim (compare key k) [
  | Ordering.lt ↦ (key, value) ∷ (k, v) ∷ tags
  | Ordering.eq ↦ (key, value) ∷ tags
  | Ordering.gt ↦ (k, v) ∷ insert key value tags
]
