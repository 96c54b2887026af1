-- ===== src/Decimal.antt =====
-- `{}` of an unsigned number: its decimal digits.
use tenon.Prelude.{ℕ, zero, suc, ◌/◌, ◌%◌, String, List, [], ◌∷◌, ◌==◌, ℕ_eq, if◌then◌else◌}
use tenon.Text.{◌<>◌}

abbrev digit_texts : List String
digit_texts = "0" ∷ "1" ∷ "2" ∷ "3" ∷ "4" ∷ "5" ∷ "6" ∷ "7" ∷ "8" ∷ "9" ∷ []

abbrev text_at : List String → ℕ → String
text_at [] i = ""
text_at (t ∷ ts) zero = t
text_at (t ∷ ts) (suc i) = text_at ts i

-- The digits of `n` before `acc`; a number has fewer digits than `fuel = n + 1`.
digits : ℕ → ℕ → String → String
digits zero n acc = acc
digits (suc fuel) n acc =
    let more = digits fuel (n / 10) (text_at digit_texts (n % 10) <> acc) in
    if n / 10 == 0 then text_at digit_texts (n % 10) <> acc else more

unfoldable pub decimal : ℕ → String
unfolding digits
decimal n = digits (suc n) n ""
