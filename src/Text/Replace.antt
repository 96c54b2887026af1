-- ===== src/Text/Replace.antt =====
-- What is left in a text after a replacement by a marker that shares no character with the text
-- that is looked for.
use Prim.Native.Char.{Char}
use tenon.Prelude.{
  ℕ, zero, suc, String, true, false, ◌≡◌, refl, ◌∙◌, ℕ_eq, arith, Bool-cases, inl, inr,
}
use tenon.Text.{◌<>◌, begins, contains_str, replace_from, rest_count, shares, has_char, count}

-- No text with a first character that the marker lacks begins inside the marker.
contains-marker :
    (c : Char) (n m r : String)
    → has_char c m ≡ false
    → contains_str (String.◌∷◌ c n) (m <> r) ≡ contains_str (String.◌∷◌ c n) r
unfolding contains_str begins
contains-marker c n String.[] r h = refl
contains-marker c n (String.◌∷◌ x m) r h = ground (arith, contains-marker c n m r)

module _ (p : String) (x : Char) (m : String) where
  -- What begins the result began the text: it cannot begin with the marker.
  begins-replace :
      (n s : String)
      → shares n (String.◌∷◌ x m) ≡ false
      → begins n (replace_from zero p (String.◌∷◌ x m) s) ≡ true
      → begins n s ≡ true
  unfolding begins replace_from
  begins-replace String.[] s f h = refl
  begins-replace (String.◌∷◌ c n) String.[] f h = h
  begins-replace (String.◌∷◌ c n) (String.◌∷◌ d s) f h = ground (arith, begins-replace n s)

  -- A text that is not there before a replacement of another is not there after it.
  pub contains-replace_other :
      (skip : ℕ) (c : Char) (n s : String)
      → shares (String.◌∷◌ c n) (String.◌∷◌ x m) ≡ false
      → contains_str (String.◌∷◌ c n) s ≡ false
      → contains_str (String.◌∷◌ c n) (replace_from skip p (String.◌∷◌ x m) s) ≡ false
  unfolding contains_str replace_from begins
  contains-replace_other skip c n String.[] f h = h
  contains-replace_other (suc skip) c n (String.◌∷◌ d s) f h =
      contains-replace_other skip c n s f (ground arith)
  contains-replace_other zero c n (String.◌∷◌ d s) f h =
      let tail = contains-replace_other zero c n s f (ground arith) in
      let skipped = contains-replace_other (rest_count p) c n s f (ground arith) in
      elim (Bool-cases (begins p (String.◌∷◌ d s))) [
        | inl hit ↦ rw hit (contains-marker c n (String.◌∷◌ x m) _ (ground arith) ∙ skipped)
        | inr miss ↦ rw miss (ground (arith, begins-replace n s, tail))
      ]

module _ (c : Char) (n : String) (x : Char) (m : String) where
  -- After the replacement the text that was looked for is not there.
  pub contains-replace_self :
      (skip : ℕ) (s : String)
      → shares (String.◌∷◌ c n) (String.◌∷◌ x m) ≡ false
      → contains_str (String.◌∷◌ c n) (replace_from skip (String.◌∷◌ c n) (String.◌∷◌ x m) s)
        ≡ false
  unfolding contains_str replace_from begins
  contains-replace_self skip String.[] f = refl
  contains-replace_self (suc skip) (String.◌∷◌ d s) f = contains-replace_self skip s f
  contains-replace_self zero (String.◌∷◌ d s) f =
      let tail = contains-replace_self zero s f in
      let skipped = contains-replace_self (count n) s f in
      elim (Bool-cases (begins (String.◌∷◌ c n) (String.◌∷◌ d s))) [
        | inl hit ↦ rw hit (contains-marker c n (String.◌∷◌ x m) _ (ground arith) ∙ skipped)
        | inr miss ↦ rw miss (ground (arith, begins-replace (String.◌∷◌ c n) x m n s, tail))
      ]
