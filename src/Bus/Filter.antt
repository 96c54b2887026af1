-- ===== src/Bus/Filter.antt =====
-- The server-side subscription filter and its topic glob (rs/bus/src/filter.rs).
pub mod Glob
pub mod Meaning
use tenon.Prelude.{
  String, Bool, true, false, not, ◌&&◌, ◌||◌, Option, none, some, List, [], ◌∷◌, ◌==◌, String_eq,
  Option_eq, contains, any, is_empty, if◌then◌else◌,
}
use tenon.Text.{split_slash}
use tenon.Bus.Level.{Level, Level_eq}
use tenon.Bus.Tags
use tenon.Bus.Tags.{Tags}
use tenon.Bus.Envelope.{Envelope}

abbrev pub reserved_namespaces : List String
reserved_namespaces =
    "session" ∷ "internal" ∷ "base" ∷ "budget" ∷ "approval" ∷ "guardian" ∷ "upgrade" ∷ "worker" ∷ []

-- `topic.split('/').next().unwrap_or(topic)`
abbrev head_segment : String → List String → String
head_segment topic [] = topic
head_segment topic (head ∷ rest) = head

unfoldable pub is_reserved : String → Bool
is_reserved topic = contains reserved_namespaces (head_segment topic (split_slash topic))

-- `topic[skip..]` for each `skip` in `0..=topic.len()`
abbrev pub suffixes : List String → List (List String)
suffixes [] = [] ∷ []
suffixes (t ∷ ts) = (t ∷ ts) ∷ suffixes ts

-- The first segment passes the test and the others match the rest of the pattern.
abbrev pub one_segment : (String → Bool) → (List String → Bool) → List String → Bool
one_segment test rest [] = false
one_segment test rest (t ∷ ts) = test t && rest ts

unfoldable pub seg_match : List String → List String → Bool
seg_match [] topic = is_empty topic
seg_match (p ∷ ps) topic =
    let deep = any (seg_match ps) (suffixes topic) in
    let single = one_segment (λ t. true) (seg_match ps) topic in
    let literal = one_segment (λ t. t == p) (seg_match ps) topic in
    if p == "**" then (if is_empty ps then true else deep) else if p == "*" then single else literal

unfoldable pub glob : String → String → Bool
glob pattern topic = seg_match (split_slash pattern) (split_slash topic)

pub record Filter : Type 0 where
  pub topics : List String
  pub levels : List Level
  pub env : Option String
  pub session : Option String
  pub tags : Tags
  pub scoped : Bool

-- `Filter::all`
abbrev pub all : Filter
all = record { topics = []; levels = []; env = none; session = none; tags = []; scoped = false }

abbrev pub scoped_to : String → Filter
scoped_to e = record all { env = some e; scoped = true }

-- An option that is set must be met; one that is not is no constraint.
abbrev narrowed : Option String → Option String → Bool
narrowed none got = true
narrowed (some want) got = got == some want

-- The loop over `self.tags`.
abbrev tags_match : Tags → Tags → Bool
tags_match [] got = true
tags_match ((key, value) ∷ rest) got =
    if not (Tags.get got key == some value) then false else tags_match rest got

unfoldable pub matches : Filter → Envelope → Bool
matches f e =
    if f.scoped && is_reserved e.topic && not (e.env == f.env)
    then false
    else if not (is_empty f.topics) && not (any (λ p. glob p e.topic) f.topics)
    then false
    else if not (is_empty f.levels) && not (contains f.levels e.level)
    then false
    else if not (narrowed f.env e.env)
    then false
    else if not (narrowed f.session e.session)
    then false
    else tags_match f.tags e.tags
