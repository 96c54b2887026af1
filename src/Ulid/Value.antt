-- ===== src/Ulid/Value.antt =====
-- The number that the bytes of an id stand for (rs/bus/src/envelope.rs).
use tenon.Prelude.{
  ℕ, zero, suc, ◌+◌, ◌*◌, ◌/◌, ◌%◌, ◌^◌, ◌≤◌, ◌<◌, ◌≡◌, refl, sym, ap, ◌∙◌, List, [], ◌∷◌, ◌++◌,
  arith, subst,
}
use native.Mathlib.Nat.{pow-succ'}
use tenon.Ulid.{be_bytes, fold_bytes, id_bytes}

fold_bytes-append :
    (value : ℕ) (xs ys : List ℕ) → fold_bytes value (xs ++ ys) ≡ fold_bytes (fold_bytes value xs) ys
fold_bytes-append value [] ys = refl
fold_bytes-append value (x ∷ xs) ys = fold_bytes-append (value * 256 % 2 ^ 128 + x) xs ys

-- `p` is the weight of the bytes above the last.
last_byte :
    (acc v p : ℕ)
    → v < 256 * p
    → (acc + 1) * (256 * p) ≤ 2 ^ 128
    → (acc * p + v / 256) * 256 % 2 ^ 128 + v % 256 ≡ acc * (256 * p) + v
last_byte acc v p fits room = grind arith

fold_bytes-be_bytes :
    (k acc v : ℕ)
    → v < 256 ^ k
    → (acc + 1) * 256 ^ k ≤ 2 ^ 128
    → fold_bytes acc (be_bytes k v) ≡ acc * 256 ^ k + v
fold_bytes-be_bytes zero acc v fits room = grind arith
fold_bytes-be_bytes (suc k) acc v fits room =
    let p = 256 ^ k in
    let weight : 256 ^ suc k ≡ 256 * p = pow-succ' 256 k in
    let fits' : v < 256 * p = subst (λ (n : ℕ). v < n) weight fits in
    let room' : (acc + 1) * (256 * p) ≤ 2 ^ 128 =
      subst (λ (n : ℕ). (acc + 1) * n ≤ 2 ^ 128) weight room in
    let above = fold_bytes-be_bytes k acc (v / 256) (omega (arith, fits')) (grind (arith, room')) in
    fold_bytes-append acc (be_bytes k (v / 256)) (v % 256 ∷ [])
    ∙ ap (λ (n : ℕ). n * 256 % 2 ^ 128 + v % 256) above
    ∙ last_byte acc v p fits' room'
    ∙ ap (λ (n : ℕ). acc * n + v) (sym weight)

-- The three parts of an id, one above the other.
abbrev pub id_value : ℕ → ℕ → ℕ → ℕ
id_value ts base counter = (ts * 2 ^ 16 + base / 8 % 2 ^ 16) * 2 ^ 64 + counter

pub fold_bytes-id_bytes :
    (ts base counter : ℕ)
    → ts < 2 ^ 48
    → counter < 2 ^ 64
    → fold_bytes 0 (id_bytes ts base counter) ≡ id_value ts base counter
fold_bytes-id_bytes ts base counter small low =
    let hi = base / 8 % 2 ^ 16 in
    fold_bytes-append 0 (be_bytes 6 ts ++ be_bytes 2 hi) (be_bytes 8 counter)
    ∙ ap (λ (n : ℕ). fold_bytes n (be_bytes 8 counter))
        (fold_bytes-append 0 (be_bytes 6 ts) (be_bytes 2 hi)
          ∙ ap (λ (n : ℕ). fold_bytes n (be_bytes 2 hi))
              (fold_bytes-be_bytes 6 0 ts (omega (arith, small)) (omega arith))
          ∙ fold_bytes-be_bytes 2 (0 * 256 ^ 6 + ts) hi (omega arith) (omega (arith, small)))
    ∙ fold_bytes-be_bytes 8 ((0 * 256 ^ 6 + ts) * 256 ^ 2 + hi) counter (omega (arith, low))
        (omega (arith, small))
    ∙ omega arith

pub id_value_fits :
    (ts base counter : ℕ) → ts < 2 ^ 48 → counter < 2 ^ 64 → id_value ts base counter < 2 ^ 128
id_value_fits ts base counter small low = omega (arith, small, low)
