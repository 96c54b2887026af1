-- ===== src/Box/Split.antt =====
-- Rows shared out by weights (`split_rows` and `split_cols` of rs/ui/src/boxes.rs). The loop that
-- takes rows back has more turns over the places as fuel than there are rows to take.
use tenon.Prelude.{
  ℕ, zero, suc, ◌+◌, ◌-◌, ◌*◌, ◌/◌, ◌%◌, ◌^◌, ◌≤◌, ◌<◌, ◌≡◌, refl, ◌∙◌, List, [], ◌∷◌, ◌==◌, ℕ_eq,
  length, is_empty, ◌||◌, arith, if◌then◌else◌, if_split, ltb,
}
use native.Mathlib.Nat.{mul-div-le, mod-le, mul-zero, mul-add, add-mul, le_of_mul-le-mul_left}

abbrev pub sum : List ℕ → ℕ
sum [] = 0
sum (n ∷ ns) = n + sum ns

abbrev pub zeros : List ℕ → List ℕ
zeros [] = []
zeros (w ∷ ws) = 0 ∷ zeros ws

-- `(w * total) / sum`, the product in 64 bits without a check
abbrev pub shares : ℕ → ℕ → List ℕ → List ℕ
shares total s [] = []
shares total s (w ∷ ws) = w * total % 2 ^ 64 / s ∷ shares total s ws

-- `out[i] += 1`
abbrev pub bump : ℕ → List ℕ → List ℕ
bump i [] = []
bump zero (n ∷ ns) = suc n ∷ ns
bump (suc i) (n ∷ ns) = n ∷ bump i ns

-- The place before `i`, and the last one before the first.
abbrev pub before : ℕ → ℕ → ℕ
before len zero = len - 1
before len (suc i) = i

-- The rows that are left, from the end, round after round.
abbrev pub give : ℕ → ℕ → List ℕ → List ℕ
give zero i out = out
give (suc remaining) i out = let j = before (length out) i in give remaining j (bump j out)

abbrev pub nth : ℕ → List ℕ → ℕ
nth i [] = 0
nth zero (n ∷ ns) = n
nth (suc i) (n ∷ ns) = nth i ns

-- `out[i] -= 1`
abbrev pub drop_one : ℕ → List ℕ → List ℕ
drop_one i [] = []
drop_one zero (n ∷ ns) = (n - 1) ∷ ns
drop_one (suc i) (n ∷ ns) = n ∷ drop_one i ns

abbrev pub take_back : ℕ → ℕ → ℕ → List ℕ → List ℕ
take_back zero remaining i out = out
take_back (suc fuel) zero i out = out
take_back (suc fuel) (suc remaining) i out =
    let next = (i + 1) % length out in
    let taken = take_back fuel remaining next (drop_one i out) in
    let passed = take_back fuel (suc remaining) next out in
    if ltb 0 (nth i out) then taken else passed

abbrev pub adjusted : ℕ → List ℕ → List ℕ
adjusted total out =
    let used = sum out in
    if ltb used total
    then give (total - used) (length out) out
    else if ltb total used
    then take_back ((used - total) * (used + 1) * length out) (used - total) 0 out
    else out

unfoldable pub split_rows : ℕ → List ℕ → List ℕ
split_rows total weights =
    let s = sum weights in
    if is_empty weights
    then []
    else if s == 0 || total == 0
    then zeros weights
    else adjusted total (shares total s weights)

-- `split_cols`
unfoldable pub split_cols : ℕ → List ℕ → List ℕ
split_cols total weights = split_rows total weights

length-bump : (i : ℕ) (out : List ℕ) → length (bump i out) ≡ length out
length-bump i [] = refl
length-bump zero (n ∷ ns) = refl
length-bump (suc i) (n ∷ ns) = omega (arith, length-bump i ns)

sum-bump : (i : ℕ) (out : List ℕ) → i < length out → sum (bump i out) ≡ suc (sum out)
sum-bump i [] h = absurd (omega (arith, h))
sum-bump zero (n ∷ ns) h = omega arith
sum-bump (suc i) (n ∷ ns) h = omega (arith, sum-bump i ns (omega (arith, h)))

before_less : (len i : ℕ) → 0 < len → i ≤ len → before len i < len
before_less len zero h g = omega arith
before_less len (suc i) h g = omega arith

give-sum :
    (remaining i : ℕ) (out : List ℕ)
    → 0 < length out
    → i ≤ length out
    → (sum (give remaining i out) ≡ sum out + remaining)
      × (length (give remaining i out) ≡ length out)
give-sum zero i out some_place within = (omega arith, refl)
give-sum (suc remaining) i out some_place within =
    let j = before (length out) i in
    let less = before_less (length out) i some_place within in
    let same = length-bump j out in
    let (total, len) =
      give-sum remaining j (bump j out) (omega (arith, same, some_place))
        (omega (arith, same, less)) in
    (omega (arith, total, sum-bump j out less), len ∙ same)

shares_le : (total s : ℕ) (ws : List ℕ) → s * sum (shares total s ws) ≤ sum ws * total
shares_le total s [] = omega (arith, mul-zero s)
shares_le total s (w ∷ ws) =
    let x = w * total % 2 ^ 64 in
    omega (
      arith,
      mul-add s (x / s) (sum (shares total s ws)),
      add-mul w (sum ws) total,
      mul-div-le x s,
      mod-le (w * total) (2 ^ 64),
      shares_le total s ws,
    )

length-shares : (total s : ℕ) (ws : List ℕ) → length (shares total s ws) ≡ length ws
length-shares total s [] = refl
length-shares total s (w ∷ ws) = omega (arith, length-shares total s ws)

zeros-sum : (ws : List ℕ) → (sum (zeros ws) ≡ 0) × (length (zeros ws) ≡ length ws)
zeros-sum [] = (refl, refl)
zeros-sum (w ∷ ws) = let (z, n) = zeros-sum ws in (omega (arith, z), omega (arith, n))

adjusted-sum :
    (total : ℕ) (out : List ℕ)
    → 0 < length out
    → sum out ≤ total
    → (sum (adjusted total out) ≡ total) × (length (adjusted total out) ≡ length out)
adjusted-sum total out some_place fits =
    let used = sum out in
    let back = take_back ((used - total) * (used + 1) * length out) (used - total) 0 out in
    let (total_given, same) = give-sum (total - used) (length out) out some_place (omega arith) in
    if_split (λ r. (sum r ≡ total) × (length r ≡ length out)) (ltb used total)
      (give (total - used) (length out) out) (if ltb total used then back else out)
      (λ fewer. (omega (arith, total_given, fits), same))
      (λ enough.
        if_split (λ r. (sum r ≡ total) × (length r ≡ length out)) (ltb total used) back out
          (λ more. absurd (ground (arith, more, fits)))
          (λ exact. (ground (arith, enough, fits), refl)))

-- If the weights do not come to 0, the rows given out come to exactly the total, one number for each
-- weight.
pub split_rows-sum :
    (total : ℕ) (weights : List ℕ)
    → 0 < sum weights
    → (sum (split_rows total weights) ≡ total)
      × (length (split_rows total weights) ≡ length weights)
unfolding split_rows
split_rows-sum total [] h = absurd (omega (arith, h))
split_rows-sum total (w ∷ ws) h =
    let weights = w ∷ ws in
    let out = shares total (sum weights) weights in
    let len = length-shares total (sum weights) weights in
    let fits = le_of_mul-le-mul_left (shares_le total (sum weights) weights) h in
    let (given, places) = adjusted-sum total out (omega (arith, len)) fits in
    let (nothing, all_places) = zeros-sum weights in
    if_split (λ r. (sum r ≡ total) × (length r ≡ length weights)) (sum weights == 0 || total == 0)
      (zeros weights) (adjusted total out)
      (λ none_given. (ground (arith, none_given, nothing, h), all_places))
      (λ some_given. (given, places ∙ len))
