-- ===== src/Bus/Filter/Glob.antt =====
-- The recursive matcher decides what the glob syntax means: a relation between pattern segments
-- and topic segments.
use tenon.Prelude.{
  String, true, ◌≡◌, ◌↔◌, refl, List, [], ◌∷◌, ◌==◌, String_eq, any, is_empty, arith, Bool-cases,
  inl, inr, if◌then◌else◌, &&-eq_true,
}
use text.Mathlib.TextEquality.{eq_iff}
use tenon.Bus.Filter.{suffixes, one_segment, seg_match, glob}
use tenon.Text.{split_slash}

-- `**` stands for any number of segments, `*` for one, and a literal segment for itself.
pub data Matches : List String → List String → Type 0 where
  done : Matches [] []
  deep_none : {p : String} {ps ts : List String} → p ≡ "**" → Matches ps ts → Matches (p ∷ ps) ts
  deep_more :
      {p t : String} {ps ts : List String}
      → p ≡ "**"
      → Matches (p ∷ ps) ts
      → Matches (p ∷ ps) (t ∷ ts)
  single :
      {p t : String} {ps ts : List String} → p ≡ "*" → Matches ps ts → Matches (p ∷ ps) (t ∷ ts)
  literal : {p t : String} {ps ts : List String} → t ≡ p → Matches ps ts → Matches (p ∷ ps) (t ∷ ts)

deep_rest : {p : String} (ts : List String) → p ≡ "**" → Matches (p ∷ []) ts
deep_rest [] e = deep_none e done
deep_rest (t ∷ ts) e = deep_more e (deep_rest ts e)

-- A suffix that the rest of the pattern matches is reached by `**`.
deep_any :
    {p : String} (ps ts : List String)
    → p ≡ "**"
    → ((us : List String) → seg_match ps us ≡ true → Matches ps us)
    → any (seg_match ps) (suffixes ts) ≡ true
    → Matches (p ∷ ps) ts
deep_any ps [] e sound h = deep_none e (sound [] (ground arith))
deep_any ps (t ∷ ts) e sound h = elim (Bool-cases (seg_match ps (t ∷ ts))) [
  | inl yes' ↦ deep_none e (sound (t ∷ ts) yes')
  | inr no' ↦ deep_more e (deep_any ps ts e sound (ground arith))
]

sound_deep :
    {p : String} (ps ts : List String)
    → p ≡ "**"
    → ((us : List String) → seg_match ps us ≡ true → Matches ps us)
    → (if is_empty ps then true else any (seg_match ps) (suffixes ts)) ≡ true
    → Matches (p ∷ ps) ts
sound_deep [] ts e sound h = deep_rest ts e
sound_deep (q ∷ ps) ts e sound h = deep_any (q ∷ ps) ts e sound h

sound_single :
    {p : String} (ps ts : List String)
    → p ≡ "*"
    → ((us : List String) → seg_match ps us ≡ true → Matches ps us)
    → one_segment (λ t. true) (seg_match ps) ts ≡ true
    → Matches (p ∷ ps) ts
sound_single ps [] e sound h = absurd (ground arith)
sound_single ps (t ∷ ts) e sound h = single e (sound ts h)

sound_literal :
    {p : String} (ps ts : List String)
    → ((us : List String) → seg_match ps us ≡ true → Matches ps us)
    → one_segment (λ t. t == p) (seg_match ps) ts ≡ true
    → Matches (p ∷ ps) ts
sound_literal ps [] sound h = absurd (ground arith)
sound_literal {p} ps (t ∷ ts) sound h =
    let (same, rest) = &&-eq_true (t == p) (seg_match ps ts) h in
    literal ((eq_iff t p).0 same) (sound ts rest)

pub seg_match_sound : (ps ts : List String) → seg_match ps ts ≡ true → Matches ps ts
unfolding seg_match
seg_match_sound [] [] h = done
seg_match_sound [] (t ∷ ts) h = absurd (ground arith)
seg_match_sound (p ∷ ps) ts h = elim (Bool-cases (p == "**")) [
  | inl deep ↦ sound_deep ps ts ((eq_iff p "**").0 deep) (seg_match_sound ps) (rw deep at h)
  | inr shallow ↦ elim (Bool-cases (p == "*")) [
    | inl one ↦
        sound_single ps ts ((eq_iff p "*").0 one) (seg_match_sound ps) (rw (shallow, one) at h)
    | inr lit ↦ sound_literal ps ts (seg_match_sound ps) (rw (shallow, lit) at h)
  ]
]

-- What the rest of the pattern matches, it matches after some suffix.
any-suffixes :
    (ps ts : List String) → seg_match ps ts ≡ true → any (seg_match ps) (suffixes ts) ≡ true
any-suffixes ps [] h = ground arith
any-suffixes ps (t ∷ ts) h = ground arith

pub seg_match_complete : {ps ts : List String} → Matches ps ts → seg_match ps ts ≡ true
unfolding seg_match
seg_match_complete done = refl
seg_match_complete (deep_none {p} {ps} {ts} e m) =
    ground (arith, (eq_iff p "**").1 e, any-suffixes ps ts (seg_match_complete m))
seg_match_complete (deep_more {p} {t} {ps} {ts} e m) =
    ground (arith, (eq_iff p "**").1 e, seg_match_complete m)
seg_match_complete (single {p} {t} {ps} {ts} e m) =
    ground (arith, eq_iff p "*", eq_iff p "**", seg_match_complete m)
seg_match_complete (literal {p} {t} {ps} {ts} e m) =
    ground (arith, eq_iff t p, any-suffixes ps ts (seg_match_complete m), seg_match_complete m)

-- A glob accepts a topic exactly when the pattern's segments match the topic's segments.
pub glob-Matches :
    (pattern topic : String)
    → (glob pattern topic ≡ true) ↔ Matches (split_slash pattern) (split_slash topic)
unfolding glob
glob-Matches pattern topic = (seg_match_sound _ _, seg_match_complete)
