-- ===== src/Trigger/Fuel.antt =====
-- The fuel of a template's loop (`substitute` of rs/base/src/trigger.rs) is enough.
use Prim.Native.Char.{Char}
use tenon.Prelude.{
  ℕ, zero, suc, ◌≤◌, ◌<◌, String, ◌≡◌, refl, ap, Option, none, some, arith, if_split,
}
use tenon.Text.{◌<>◌, begins, count}
use tenon.Json.{Value}
use tenon.Bus.Envelope.{Envelope}
use tenon.Trigger.Template.{
  cut, cut_more, skip, resolve, at_open, after_open, substitute_from, substitute,
}

count-skip : (n : ℕ) (s : String) → count (skip n s) ≤ count s
count-skip zero s = omega arith
count-skip (suc n) String.[] = omega arith
count-skip (suc n) (String.◌∷◌ c s) = omega (arith, count-skip n s)

-- What is left after a cut is shorter than the text.
abbrev Shorter : String → Option (String × String) → Type 0
Shorter s none = Unit
Shorter s (some (before, after)) = count after < count s

cut_more-Shorter :
    (c : Char) (s : String) (o : Option (String × String))
    → Shorter s o
    → Shorter (String.◌∷◌ c s) (cut_more c o)
cut_more-Shorter c s none h = tt
cut_more-Shorter c s (some (before, after)) h = omega (arith, h)

cut-Shorter : (d : Char) (n s : String) → Shorter s (cut (String.◌∷◌ d n) s)
unfolding cut
cut-Shorter d n String.[] = tt
cut-Shorter d n (String.◌∷◌ c s) =
    if_split (Shorter (String.◌∷◌ c s)) (begins (String.◌∷◌ d n) (String.◌∷◌ c s))
      (some ("", skip (count (String.◌∷◌ d n)) (String.◌∷◌ c s)))
      (cut_more c (cut (String.◌∷◌ d n) s)) (λ hit. omega (arith, count-skip (count n) s))
      (λ miss. cut_more-Shorter c s (cut (String.◌∷◌ d n) s) (cut-Shorter d n s))

module _ (print : Value → String) (e : Envelope) where
  after_open_same :
      (rest : String) (m n : String → String) (o : Option (String × String))
      → Shorter rest o
      → ((x : String) → count x < count rest → m x ≡ n x)
      → after_open print e rest m o ≡ after_open print e rest n o
  after_open_same rest m n none h same = refl
  after_open_same rest m n (some (key, after)) h same =
      ap (λ t. resolve print key e <> t) (same after h)

  at_open_same :
      (rest : String) (m n : String → String) (o : Option (String × String))
      → Shorter rest o
      → ((x : String) → count x < count rest → m x ≡ n x)
      → at_open print e rest m o ≡ at_open print e rest n o
  at_open_same rest m n none h same = refl
  at_open_same rest m n (some (before, after)) h same =
      ap (λ t. before <> t)
        (after_open_same after m n (cut "}" after) (cut-Shorter _ _ after)
          (λ x lt. same x (omega (arith, lt, h))))

  fuel_same :
      (f g : ℕ) (rest : String)
      → count rest ≤ f
      → count rest ≤ g
      → substitute_from print f e rest ≡ substitute_from print g e rest
  unfolding substitute_from cut
  fuel_same zero zero rest lf lg = refl
  fuel_same zero (suc g) String.[] lf lg = refl
  fuel_same zero (suc g) (String.◌∷◌ c s) lf lg = absurd (omega (arith, lf))
  fuel_same (suc f) zero String.[] lf lg = refl
  fuel_same (suc f) zero (String.◌∷◌ c s) lf lg = absurd (omega (arith, lg))
  fuel_same (suc f) (suc g) rest lf lg =
      at_open_same rest (substitute_from print f e) (substitute_from print g e) (cut "${" rest)
        (cut-Shorter _ _ rest)
        (λ x lt. fuel_same f g x (omega (arith, lt, lf)) (omega (arith, lt, lg)))

  -- With at least as much fuel as the text has characters, the loop over a template comes to the
  -- same text: the loop ends by itself, before its fuel does.
  pub substitute_enough :
      (fuel : ℕ) (text : String)
      → count text ≤ fuel
      → substitute_from print fuel e text ≡ substitute print e text
  unfolding substitute
  substitute_enough fuel text le = fuel_same fuel (count text) text le (omega arith)
