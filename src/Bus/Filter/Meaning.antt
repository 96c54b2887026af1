-- ===== src/Bus/Filter/Meaning.antt =====
-- The early returns of `Filter::matches`, read as one conjunction over the axes.
use tenon.Prelude.{
  String, true, false, ◌≡◌, ◌↔◌, ◌⊎◌, refl, Option, none, some, [], ◌∷◌, ◌==◌, String_eq, Option_eq,
  any, is_empty, contains, All, arith,
}
use tenon.Bus.Level.{Level_eq}
use tenon.Bus.Tags
use tenon.Bus.Tags.{Tags}
use tenon.Bus.Envelope.{Envelope}
use tenon.Bus.Filter.{Filter, matches, glob, is_reserved, narrowed, tags_match}

-- An axis that is set demands its value.
abbrev pub Narrows : Option String → Option String → Type 0
Narrows none got = Unit
Narrows (some want) got = got ≡ some want

pub record Accepts (f : Filter) (e : Envelope) : Type 0 where
  pub reserved : (f.scoped ≡ false) ⊎ ((is_reserved e.topic ≡ false) ⊎ (e.env ≡ f.env))
  pub topic : (is_empty f.topics ≡ true) ⊎ (any (λ p. glob p e.topic) f.topics ≡ true)
  pub level : (is_empty f.levels ≡ true) ⊎ (contains f.levels e.level ≡ true)
  pub env : Narrows f.env e.env
  pub session : Narrows f.session e.session
  pub tags : All (λ t. Tags.get e.tags t.0 ≡ some t.1) f.tags

option_iff : (a b : Option String) → ((a == b) ≡ true) ↔ (a ≡ b)
option_iff = Option_eq.beq_iff

narrowed_iff : (want got : Option String) → (narrowed want got ≡ true) ↔ Narrows want got
narrowed_iff none got = ((λ h. tt), λ h. refl)
narrowed_iff (some want) got = option_iff got (some want)

tags_match_iff :
    (want got : Tags) → (tags_match want got ≡ true) ↔ All (λ t. Tags.get got t.0 ≡ some t.1) want
tags_match_iff [] got = ((λ h. tt), λ h. refl)
tags_match_iff ((k, v) ∷ want) got =
    ground (arith, option_iff (Tags.get got k) (some v), tags_match_iff want got)

matches_sound : (f : Filter) (e : Envelope) → matches f e ≡ true → Accepts f e
unfolding matches
matches_sound f e h = ground (
  arith,
  option_iff e.env f.env,
  narrowed_iff f.env e.env,
  narrowed_iff f.session e.session,
  tags_match_iff f.tags e.tags,
)

matches_complete : (f : Filter) (e : Envelope) → Accepts f e → matches f e ≡ true
unfolding matches
matches_complete f e a = ground (
  arith,
  option_iff e.env f.env,
  narrowed_iff f.env e.env,
  narrowed_iff f.session e.session,
  tags_match_iff f.tags e.tags,
)

-- A filter passes an envelope exactly when every axis that it sets is met: its topics, its levels,
-- its env, its session and its tags; and, if it is scoped, a reserved topic only of its own env.
pub matches-Accepts : (f : Filter) (e : Envelope) → (matches f e ≡ true) ↔ Accepts f e
matches-Accepts f e = (matches_sound f e, matches_complete f e)
