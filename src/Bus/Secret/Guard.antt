-- ===== src/Bus/Secret/Guard.antt =====
-- A payload and tags that the guard lets through hold none of the secrets it knows.
use tenon.Prelude.{
  ℕ, zero, suc, String, Bool, false, ◌||◌, ◌≡◌, ◌≢◌, refl, ◌⊎◌, subst, none, some, List, [], ◌∷◌,
  String_eq, get_elem?, All, ok, arith, inl, inr,
}
use text.Mathlib.TextEquality.{eq_iff}
use tenon.Text.{contains_str, replace}
use tenon.Json.{Value}
use tenon.Bus.Tags
use tenon.Bus.Tags.{Tags}
use tenon.Bus.Secret.{
  Leak, Rule, block, mask, marker, contains, tags_contain, mask_tags, collect, blocked_by, mask_all,
  mask_all_tags, scan_envelope,
}
use tenon.Bus.Secret.Mask.{
  Foreign, contains-mask_self, contains-mask_other, replace-clean_self, replace-clean_other,
}

-- If no rule blocks, no `block` rule finds its value.
blocked_by-none :
    (found : Rule → Bool) (rules : List Rule) (i : ℕ) (r : Rule)
    → get_elem? rules i ≡ some r
    → r.leak ≡ block
    → blocked_by found rules ≡ none
    → found r ≡ false
unfolding blocked_by
blocked_by-none found [] i r at b h = cc
blocked_by-none found (q ∷ rules) zero r at b h = ground arith
blocked_by-none found (q ∷ rules) (suc i) r at b h =
    blocked_by-none found rules i r at b (ground arith)

mask_all-keeps :
    (needle : String) (rules : List Rule) (v : Value)
    → needle ≢ ""
    → All (λ q. Foreign needle q.name) rules
    → contains needle v ≡ false
    → contains needle (mask_all rules v) ≡ false
unfolding mask_all
mask_all-keeps needle [] v some_char f h = h
mask_all-keeps needle (q ∷ rules) v some_char f h =
    mask_all-keeps needle rules _ some_char f.1
      (ground (arith, contains-mask_other needle q.value q.name v some_char f.0 h))

mask_all-removes :
    (rules : List Rule) (i : ℕ) (r : Rule) (v : Value)
    → get_elem? rules i ≡ some r
    → r.leak ≡ mask
    → r.value ≢ ""
    → All (λ q. Foreign r.value q.name) rules
    → contains r.value (mask_all rules v) ≡ false
unfolding mask_all
mask_all-removes [] i r v at m some_char f = cc
mask_all-removes (q ∷ rules) zero r v at m some_char f =
    let same : q ≡ r = cc in
    let own : Foreign r.value r.name = subst (λ (x : Rule). Foreign r.value x.name) same f.0 in
    mask_all-keeps r.value rules _ some_char f.1
      (ground (arith, contains-mask_self r.value r.name v some_char own))
mask_all-removes (q ∷ rules) (suc i) r v at m some_char f =
    mask_all-removes rules i r _ at m some_char f.1

-- Neither the key nor the value of a tag holds the needle.
abbrev Clean : String → String × String → Type 0
Clean needle t = (contains_str needle t.0 ≡ false) × (contains_str needle t.1 ≡ false)

All-Clean :
    (needle : String) (tags : Tags)
    → needle ≢ ""
    → tags_contain tags needle ≡ false
    → All (Clean needle) tags
unfolding tags_contain
All-Clean needle [] some_char h = tt
All-Clean needle (t ∷ tags) some_char h =
    ground (arith, eq_iff needle "", All-Clean needle tags some_char)

none_contained :
    (needle : String) (tags : Tags) → All (Clean needle) tags → tags_contain tags needle ≡ false
unfolding tags_contain
none_contained needle [] h = ground arith
none_contained needle (t ∷ tags) h = ground (arith, none_contained needle tags h.1)

insert-Clean :
    (needle key value : String) (tags : Tags)
    → Clean needle (key, value)
    → All (Clean needle) tags
    → All (Clean needle) (Tags.insert key value tags)
unfolding Tags.insert
insert-Clean needle key value [] c h = (c, tt)
insert-Clean needle key value (t ∷ tags) c h =
    ground (arith, insert-Clean needle key value tags c h.1)

collect-Clean :
    (needle p to : String) (tags out : Tags)
    → All (λ t. Clean needle (replace p to t.0, replace p to t.1)) tags
    → All (Clean needle) out
    → All (Clean needle) (collect p to tags out)
unfolding collect
collect-Clean needle p to [] out h k = k
collect-Clean needle p to (t ∷ tags) out h k =
    collect-Clean needle p to tags _ h.1 (insert-Clean needle _ _ out h.0 k)

All-map :
    {P Q : String × String → Type 0} (tags : Tags)
    → ((t : String × String) → P t → Q t)
    → All P tags
    → All Q tags
All-map [] f h = tt
All-map (t ∷ tags) f h = (f t h.0, All-map tags f h.1)

All-every :
    {Q : String × String → Type 0} (tags : Tags) → ((t : String × String) → Q t) → All Q tags
All-every [] f = tt
All-every (t ∷ tags) f = (f t, All-every tags f)

mask_tags_self :
    (needle name : String) (tags : Tags)
    → needle ≢ ""
    → Foreign needle name
    → tags_contain (mask_tags tags needle name) needle ≡ false
unfolding mask_tags
mask_tags_self needle name tags some_char f =
    let rewritten : All
        (λ (t : String × String).
          Clean needle (replace needle (marker name) t.0, replace needle (marker name) t.1))
        tags =
      All-every tags (λ t. (
        replace-clean_self needle name t.0 some_char f,
        replace-clean_self needle name t.1 some_char f,
      )) in
    ground (
      arith,
      eq_iff needle "",
      none_contained needle [] tt,
      none_contained needle _ (collect-Clean needle needle (marker name) tags [] rewritten tt),
    )

mask_tags-other :
    (needle p name : String) (tags : Tags)
    → needle ≢ ""
    → Foreign needle name
    → tags_contain tags needle ≡ false
    → tags_contain (mask_tags tags p name) needle ≡ false
unfolding mask_tags
mask_tags-other needle p name tags some_char f h =
    let rewritten : All
        (λ (t : String × String).
          Clean needle (replace p (marker name) t.0, replace p (marker name) t.1))
        tags =
      All-map tags
        (λ t c. (
          replace-clean_other needle p name t.0 some_char f c.0,
          replace-clean_other needle p name t.1 some_char f c.1,
        ))
        (All-Clean needle tags some_char h) in
    ground
      (arith, none_contained needle _ (collect-Clean needle p (marker name) tags [] rewritten tt))

mask_all_tags-keeps :
    (needle : String) (rules : List Rule) (tags : Tags)
    → needle ≢ ""
    → All (λ q. Foreign needle q.name) rules
    → tags_contain tags needle ≡ false
    → tags_contain (mask_all_tags rules tags) needle ≡ false
unfolding mask_all_tags
mask_all_tags-keeps needle [] tags some_char f h = h
mask_all_tags-keeps needle (q ∷ rules) tags some_char f h =
    mask_all_tags-keeps needle rules _ some_char f.1
      (ground (arith, mask_tags-other needle q.value q.name tags some_char f.0 h))

mask_all_tags-removes :
    (rules : List Rule) (i : ℕ) (r : Rule) (tags : Tags)
    → get_elem? rules i ≡ some r
    → r.leak ≡ mask
    → r.value ≢ ""
    → All (λ q. Foreign r.value q.name) rules
    → tags_contain (mask_all_tags rules tags) r.value ≡ false
unfolding mask_all_tags
mask_all_tags-removes [] i r tags at m some_char f = cc
mask_all_tags-removes (q ∷ rules) zero r tags at m some_char f =
    let same : q ≡ r = cc in
    let own : Foreign r.value r.name = subst (λ (x : Rule). Foreign r.value x.name) same f.0 in
    mask_all_tags-keeps r.value rules _ some_char f.1
      (ground (arith, mask_tags_self r.value r.name tags some_char own))
mask_all_tags-removes (q ∷ rules) (suc i) r tags at m some_char f =
    mask_all_tags-removes rules i r _ at m some_char f.1

Leak-cases : (l : Leak) → (l ≡ mask) ⊎ (l ≡ block)
Leak-cases mask = inl refl
Leak-cases block = inr refl

passed :
    (rules : List Rule) (payload out : Value) (tags out_tags : Tags)
    → scan_envelope rules payload tags ≡ ok (out, out_tags)
    → (out ≡ mask_all rules payload)
      × (out_tags ≡ mask_all_tags rules tags)
      × (blocked_by (λ q. contains q.value payload || tags_contain tags q.value) rules ≡ none)
unfolding scan_envelope
passed [] payload out tags out_tags h = unfold mask_all mask_all_tags blocked_by in ground arith
passed (q ∷ rules) payload out tags out_tags h = ground arith

-- The code's own search finds the secret's value no more.
pub passes-lacks :
    (rules : List Rule) (i : ℕ) (r : Rule) (payload out : Value) (tags out_tags : Tags)
    → get_elem? rules i ≡ some r
    → r.value ≢ ""
    → All (λ q. Foreign r.value q.name) rules
    → scan_envelope rules payload tags ≡ ok (out, out_tags)
    → (contains r.value out ≡ false) × (tags_contain out_tags r.value ≡ false)
passes-lacks rules i r payload out tags out_tags at some_char f h =
    let (payload_is, tags_are, unblocked) = passed rules payload out tags out_tags h in
    rw (payload_is, tags_are)
      (elim (Leak-cases r.leak) [
        | inl masked ↦ (
          mask_all-removes rules i r payload at masked some_char f,
          mask_all_tags-removes rules i r tags at masked some_char f,
        )
        | inr blocked ↦
            let absent = blocked_by-none _ rules i r at blocked unblocked in
            (
              mask_all-keeps r.value rules payload some_char f (ground arith),
              mask_all_tags-keeps r.value rules tags some_char f (ground arith),
            )
      ])
