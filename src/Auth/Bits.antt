-- ===== src/Auth/Bits.antt =====
-- Exclusive or and or of numbers, as far as the comparison of tokens needs them.
use Prim.Native.Nat.{bit_xor, bit_or, digits, differ, bit_xor-bitwise, bit_or-bitwise}
use tenon.Prelude.{
  ℕ, zero, suc, ◌*◌, ◌/◌, ◌%◌, ◌^◌, ◌≤◌, ◌<◌, max, ◌≡◌, refl, sym, ap, subst, ◌∙◌, arith,
}

differ-zero : (x y : ℕ) → differ x y ≡ 0 → x ≡ y
differ-zero zero y e = sym e
differ-zero (suc x) zero e = e
differ-zero (suc x) (suc y) e = ap suc (differ-zero x y e)

differ-same : (x : ℕ) → differ x x ≡ 0
differ-same zero = refl
differ-same (suc x) = differ-same x

differ-le : (x y : ℕ) → differ x y ≤ max x y
differ-le zero y = omega arith
differ-le (suc x) zero = omega arith
differ-le (suc x) (suc y) = let h = differ-le x y in omega (arith, h)

xor_digits-zero : (n a b : ℕ) → a ≤ n → digits (λ c. c) differ n a b ≡ 0 → a ≡ b
xor_digits-zero zero a b le e = omega (arith, le, e)
xor_digits-zero (suc n) zero b le e = sym e
xor_digits-zero (suc n) (suc a) b le e =
    let high = xor_digits-zero n (suc a / 2) (b / 2) (omega (arith, le)) (omega (arith, e)) in
    let low = differ-zero (suc a % 2) (b % 2) (omega (arith, e)) in omega (arith, high, low)

xor_digits-same : (n a : ℕ) → a ≤ n → digits (λ c. c) differ n a a ≡ 0
xor_digits-same zero a le = omega (arith, le)
xor_digits-same (suc n) zero le = refl
xor_digits-same (suc n) (suc a) le =
    let high = xor_digits-same n (suc a / 2) (omega (arith, le)) in
    let low = differ-same (suc a % 2) in omega (arith, high, low)

pow_suc : (k : ℕ) → 2 ^ suc k ≡ 2 * 2 ^ k
pow_suc k = grind arith

xor_digits-lt : (k n a b : ℕ) → a < 2 ^ k → b < 2 ^ k → digits (λ c. c) differ n a b < 2 ^ k
xor_digits-lt k zero a b la lb = lb
xor_digits-lt k (suc n) zero b la lb = lb
xor_digits-lt zero (suc n) (suc a) b la lb = absurd (omega (arith, la))
xor_digits-lt (suc k) (suc n) (suc a) b la lb =
    let twice : 2 ^ suc k ≡ 2 * 2 ^ k = pow_suc k in
    let high =
      xor_digits-lt k n (suc a / 2) (b / 2) (omega (arith, la, twice)) (omega (arith, lb, twice)) in
    let low = differ-le (suc a % 2) (b % 2) in omega (arith, high, low, twice)

or_digits-zero : (n a b : ℕ) → a ≤ n → digits (λ c. c) max n a b ≡ 0 → (a ≡ 0) × (b ≡ 0)
or_digits-zero zero a b le e = (omega (arith, le), e)
or_digits-zero (suc n) zero b le e = (refl, e)
or_digits-zero (suc n) (suc a) b le e =
    let high = or_digits-zero n (suc a / 2) (b / 2) (omega (arith, le)) (omega (arith, e)) in
    let (h, t) = high in absurd (omega (arith, h, e))

pub bit_xor-zero : (a b : ℕ) → bit_xor a b ≡ 0 → a ≡ b
bit_xor-zero a b e = xor_digits-zero a a b (omega arith) (sym (bit_xor-bitwise a b) ∙ e)

pub bit_xor-same : (a : ℕ) → bit_xor a a ≡ 0
bit_xor-same a = bit_xor-bitwise a a ∙ xor_digits-same a a (omega arith)

pub bit_xor-lt : (k a b : ℕ) → a < 2 ^ k → b < 2 ^ k → bit_xor a b < 2 ^ k
bit_xor-lt k a b la lb =
    subst (λ n. n < 2 ^ k) (sym (bit_xor-bitwise a b)) (xor_digits-lt k a a b la lb)

pub bit_or-zero : (a b : ℕ) → bit_or a b ≡ 0 → (a ≡ 0) × (b ≡ 0)
bit_or-zero a b e = or_digits-zero a a b (omega arith) (sym (bit_or-bitwise a b) ∙ e)

pub bit_or-none : (b : ℕ) → bit_or 0 b ≡ b
bit_or-none b = bit_or-bitwise 0 b
