-- ===== src/Ulid/Digits.antt =====
-- The order of the texts that `encode_base32` writes (rs/bus/src/envelope.rs) is that of their numbers.
use Prim.Native.Char.{Char, code}
use tenon.Prelude.{
  ℕ, zero, suc, ◌+◌, ◌*◌, ◌/◌, ◌%◌, ◌^◌, ◌≤◌, ◌<◌, String, Bool, true, false, ◌&&◌, ◌≡◌, refl, sym,
  ap, ◌∙◌, subst, ◌⊎◌, inl, inr, Bool-cases, ℕ_eq, arith, ltb,
}
use native.Mathlib.Nat.{pow-succ'}
use tenon.Text.{count, str_ltb}
use tenon.Ulid.{crockford, nth_char, encode_slots}

-- Each code is above the one before it.
ascending_from : ℕ → String → Bool
ascending_from p String.[] = true
ascending_from p (String.◌∷◌ c s) = ltb p (code c) && ascending_from (code c) s

above_first :
    (p : ℕ) (s : String) (i : ℕ) → ascending_from p s ≡ true → i < count s → p < code (nth_char s i)
unfolding ascending_from
above_first p String.[] i up there = absurd (omega (arith, there))
above_first p (String.◌∷◌ c s) zero up there = ground (arith, up)
above_first p (String.◌∷◌ c s) (suc i) up there =
    let rest : ascending_from (code c) s ≡ true = ground (arith, up) in
    let first : p < code c = ground (arith, up) in
    let later = above_first (code c) s i rest (omega (arith, there)) in omega (arith, first, later)

nth_char_rises :
    (p : ℕ) (s : String) (i j : ℕ)
    → ascending_from p s ≡ true
    → i < j
    → j < count s
    → code (nth_char s i) < code (nth_char s j)
unfolding ascending_from
nth_char_rises p String.[] i j up less there = absurd (omega (arith, there))
nth_char_rises p s i zero up less there = absurd (omega (arith, less))
nth_char_rises p (String.◌∷◌ c s) zero (suc j) up less there =
    above_first (code c) s j (ground (arith, up)) (omega (arith, there))
nth_char_rises p (String.◌∷◌ c s) (suc i) (suc j) up less there =
    nth_char_rises (code c) s i j (ground (arith, up)) (omega (arith, less)) (omega (arith, there))

crockford_rises :
    (i j : ℕ) → i < j → j < 32 → code (nth_char crockford i) < code (nth_char crockford j)
unfolding ascending_from
crockford_rises i j less there = nth_char_rises 0 crockford i j refl less there

pub count-encode_slots : (k v : ℕ) (out : String) → count (encode_slots k v out) ≡ k + count out
count-encode_slots zero v out = omega arith
count-encode_slots (suc k) v out =
    omega (arith, count-encode_slots k (v / 32) (String.◌∷◌ (nth_char crockford (v % 32)) out))

le_of_not_ltb : (a b : ℕ) → ltb a b ≡ false → b ≤ a
le_of_not_ltb a b h = ground arith

first_less :
    (c d : Char) (s t : String) → code c < code d → str_ltb (String.◌∷◌ c s) (String.◌∷◌ d t) ≡ true
first_less c d s t less = ground (arith, less)

first_same : (c : Char) (s t : String) → str_ltb (String.◌∷◌ c s) (String.◌∷◌ c t) ≡ str_ltb s t
first_same c s t = ground arith

-- What the slots of two numbers say of their texts, before two ends.
abbrev Ordered : ℕ → ℕ → ℕ → String → String → Type 0
Ordered k a b s t =
    (a < b → str_ltb (encode_slots k a s) (encode_slots k b t) ≡ true)
    × (a ≡ b → str_ltb (encode_slots k a s) (encode_slots k b t) ≡ str_ltb s t)

pub slots-Ordered : (k a b : ℕ) (s t : String) → a < 32 ^ k → b < 32 ^ k → Ordered k a b s t
slots-Ordered zero a b s t fits fits' =
    ((λ less. absurd (omega (arith, less, fits, fits'))), λ same. refl)
slots-Ordered (suc k) a b s t fits fits' =
    let weight : 32 ^ suc k ≡ 32 * 32 ^ k = pow-succ' 32 k in
    let small : a < 32 * 32 ^ k = subst (λ (n : ℕ). a < n) weight fits in
    let small' : b < 32 * 32 ^ k = subst (λ (n : ℕ). b < n) weight fits' in
    let digit = λ (v : ℕ). nth_char crockford (v % 32) in
    let rest =
      slots-Ordered k (a / 32) (b / 32) (String.◌∷◌ (digit a) s) (String.◌∷◌ (digit b) t)
        (omega (arith, small)) (omega (arith, small')) in
    (
      λ less. (elim (lt_or_same a b less) [
        | inl high ↦ rest.0 high
        | inr (same, low) ↦
            rest.1 same
            ∙ first_less (digit a) (digit b) s t
                (crockford_rises (a % 32) (b % 32) low (omega arith))
      ]),
      λ same.
          rest.1 (ap (λ (n : ℕ). n / 32) same)
          ∙ ap (λ (n : ℕ). str_ltb (String.◌∷◌ (digit a) s) (String.◌∷◌ (digit n) t)) (sym same)
          ∙ first_same (digit a) s t,
    )
  where
    lt_or_same : (a b : ℕ) → a < b → (a / 32 < b / 32) ⊎ ((a / 32 ≡ b / 32) × (a % 32 < b % 32))
    lt_or_same a b less = elim (Bool-cases (ltb (a / 32) (b / 32))) [
      | inl high ↦ inl (ground (arith, high))
      | inr level ↦ inr (
        omega (arith, less, le_of_not_ltb (a / 32) (b / 32) level),
        omega (arith, less, le_of_not_ltb (a / 32) (b / 32) level),
      )
    ]
