-- ===== src/Auth/Compare.antt =====
-- What the comparison of tokens decides, and whom the gate lets in.
use Prim.Native.Nat.{bit_xor}
use tenon.Prelude.{
  ℕ, zero, suc, ◌+◌, ◌%◌, ◌^◌, ◌≤◌, ◌<◌, max, true, ◌≡◌, ◌↔◌, ◌⊎◌, inl, inr, refl, ap, subst, ◌∙◌,
  [], ◌∷◌, ℕ_eq, length, get_elem?, arith,
}
use tenon.Auth.{Bytes, byte_at, fold_bytes, constant_time_eq}
use tenon.Auth.Bits.{bit_xor-zero, bit_xor-same, bit_xor-lt, bit_or-zero, bit_or-none}

SameFrom : ℕ → ℕ → Bytes → Bytes → Type 0
SameFrom index end a b =
    (i : ℕ) → index ≤ i → i < end → byte_at (get_elem? a i) ≡ byte_at (get_elem? b i)

-- A range is its first place and the others.
first_or_later : (i j : ℕ) → i ≤ j → (i ≡ j) ⊎ (i + 1 ≤ j)
first_or_later i j le = omega (arith, le)

SameFrom-cons :
    (index end : ℕ) (a b : Bytes)
    → byte_at (get_elem? a index) ≡ byte_at (get_elem? b index)
    → SameFrom (index + 1) end a b
    → SameFrom index end a b
unfolding SameFrom
SameFrom-cons index end a b here later i le lt = elim (first_or_later index i le) [
  | inl e ↦ subst (λ j. byte_at (get_elem? a j) ≡ byte_at (get_elem? b j)) e here
  | inr more ↦ later i more lt
]

-- The accumulator comes out 0 only if it went in 0 and the bytes in between are the same.
fold_bytes-zero :
    (len index end : ℕ) (a b : Bytes) (diff : ℕ)
    → index + len ≡ end
    → fold_bytes len index a b diff ≡ 0
    → (diff ≡ 0) × SameFrom index end a b
unfolding fold_bytes SameFrom
fold_bytes-zero zero index end a b diff range e =
    (e, λ i le lt. absurd (omega (arith, le, lt, range)))
fold_bytes-zero (suc len) index end a b diff range e =
    let (or_zero, later) = fold_bytes-zero len (index + 1) end a b _ (omega (arith, range)) e in
    let (before, x) = bit_or-zero diff _ or_zero in
    (before, SameFrom-cons index end a b (bit_xor-zero _ _ x) later)

fold_bytes-same : (len index : ℕ) (a : Bytes) → fold_bytes len index a a 0 ≡ 0
unfolding fold_bytes
fold_bytes-same zero index a = refl
fold_bytes-same (suc len) index a =
    ap (fold_bytes len (index + 1) a a) (bit_or-none _ ∙ bit_xor-same (byte_at (get_elem? a index)))
    ∙ fold_bytes-same len (index + 1) a

-- Lists of the same length with the same bytes at each place.
same_bytes :
    (a b : Bytes)
    → length a ≡ length b
    → ((i : ℕ) → i < length a → byte_at (get_elem? a i) ≡ byte_at (get_elem? b i))
    → a ≡ b
same_bytes [] [] e h = refl
same_bytes [] (y ∷ b) e h = absurd (omega (arith, e))
same_bytes (x ∷ a) [] e h = absurd (omega (arith, e))
same_bytes (x ∷ a) (y ∷ b) e h =
    let head : x ≡ y = h 0 (omega arith) in
    let tail = same_bytes a b (omega (arith, e)) (λ i lt. h (suc i) (omega (arith, lt))) in cc

-- Short lengths whose difference is 0 in its low byte.
lengths : (m n : ℕ) → m < 256 → n < 256 → bit_xor m n % 256 ≡ 0 → m ≡ n
lengths m n lm ln e =
    let small : bit_xor m n < 2 ^ 8 = bit_xor-lt 8 m n lm ln in
    bit_xor-zero m n (omega (arith, small, e))

equal_of_fold :
    (a b : Bytes)
    → length a < 256
    → length b < 256
    → fold_bytes (max (length a) (length b)) 0 a b (bit_xor (length a) (length b) % 256) ≡ 0
    → a ≡ b
unfolding SameFrom
equal_of_fold a b la lb e =
    let top = max (length a) (length b) in
    let (low, same) = fold_bytes-zero top 0 top a b _ (omega arith) e in
    let long = lengths (length a) (length b) la lb low in
    same_bytes a b long (λ i lt. same i (omega arith) (omega (arith, lt)))

fold_of_equal :
    (a : Bytes)
    → fold_bytes (max (length a) (length a)) 0 a a (bit_xor (length a) (length a) % 256) ≡ 0
fold_of_equal a =
    let none_differ = bit_xor-same (length a) in
    ap (fold_bytes (max (length a) (length a)) 0 a a) (omega (arith, none_differ))
    ∙ fold_bytes-same (max (length a) (length a)) 0 a

-- Two tokens of fewer than 256 bytes compare as equal exactly when they are equal.
pub constant_time_eq_iff :
    (a b : Bytes) → length a < 256 → length b < 256 → (constant_time_eq a b ≡ true) ↔ (a ≡ b)
unfolding constant_time_eq
constant_time_eq_iff a b la lb = (
  λ e. equal_of_fold a b la lb (ground (arith, e)),
  λ e. subst (λ c. constant_time_eq a c ≡ true) e (ground (arith, fold_of_equal a)),
)
