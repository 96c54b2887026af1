-- ===== src/Ulid/Minted.antt =====
-- The ids that one process makes, in the order in which it makes them (`ulid` of
-- rs/bus/src/envelope.rs).
use tenon.Prelude.{
  ℕ, suc, ◌+◌, ◌%◌, ◌^◌, ◌≤◌, ◌<◌, String, true, ◌≡◌, ◌≢◌, refl, sym, ap, ◌∙◌, subst, List, [], ◌∷◌,
  ◌==◌, ℕ_eq, arith, if_split, All, length,
}
use tenon.Prelude.Int.{ℤ, pos_part}
use tenon.Text.{count, str_ltb}
use tenon.Ulid.{Minter, id_of, base_of, timestamp, ulid, mint}
use tenon.Ulid.Order.{count-id_of, value_less, later_value, other_counter}

-- Each text comes before the next.
abbrev pub Before : String → List String → Type 0
Before s [] = Unit
Before s (t ∷ ts) = str_ltb s t ≡ true

abbrev pub Ascends : List String → Type 0
Ascends [] = Unit
Ascends (s ∷ ss) = (count s ≡ 26) × Before s ss × Ascends ss

-- The clock does not go back, and has not left its 48 bits.
abbrev pub Steady : ℕ → List (ℤ × ℤ) → Type 0
Steady since [] = Unit
Steady since ((now, again) ∷ times) =
    (since ≤ pos_part now) × (pos_part now < 2 ^ 48) × Steady (pos_part now) times

-- No text comes twice.
abbrev pub Distinct : List String → Type 0
Distinct [] = Unit
Distinct (s ∷ ss) = All (λ (t : String). s ≢ t) ss × Distinct ss

base_nonzero : (pid : ℕ) (again : ℤ) (b : ℕ) → base_of pid again b ≢ 0
unfolding base_of
base_nonzero pid again b =
    if_split (λ (n : ℕ). n ≢ 0) (b == 0) _ b (λ e h. omega (arith, h)) (λ e h. ground (arith, e, h))

base_kept : (pid : ℕ) (again : ℤ) (b : ℕ) → b ≢ 0 → base_of pid again b ≡ b
unfolding base_of
base_kept pid again b set =
    if_split (λ (n : ℕ). n ≡ b) (b == 0) _ b (λ e. absurd (set ((ℕ_eq.beq_iff b 0).0 e)))
      (λ e. refl)

abbrev at_counter : ℕ → ℕ → Minter
at_counter base counter = record { base = base; counter = counter }

module _ (pid base : ℕ) (set : base ≢ 0) where
  next_minter :
      (again : ℤ) (counter : ℕ) (times : List (ℤ × ℤ))
      → counter + 1 + length times ≤ 2 ^ 64
      → mint pid times (at_counter (base_of pid again base) ((counter + 1) % 2 ^ 64))
        ≡ mint pid times (at_counter base (counter + 1))
  next_minter again counter [] room = refl
  next_minter again counter (time ∷ times) room =
      let same : (counter + 1) % 2 ^ 64 ≡ counter + 1 = omega (arith, room) in
      ap (λ (b : ℕ). mint pid (time ∷ times) (at_counter b ((counter + 1) % 2 ^ 64)))
        (base_kept pid again base set)
      ∙ ap (λ (c : ℕ). mint pid (time ∷ times) (at_counter base c)) same

  -- The first id, and those that follow.
  mint-step :
      (now again : ℤ) (counter : ℕ) (times : List (ℤ × ℤ))
      → counter + 1 + length times ≤ 2 ^ 64
      → mint pid ((now, again) ∷ times) (at_counter base counter)
        ≡ id_of (timestamp now) base counter ∷ mint pid times (at_counter base (counter + 1))
  unfolding ulid
  mint-step now again counter times room =
      ap
        (λ (b : ℕ).
          id_of (timestamp now) b counter
          ∷ mint pid times (at_counter (base_of pid again base) ((counter + 1) % 2 ^ 64)))
        (base_kept pid again base set)
      ∙ ap (λ (ids : List String). id_of (timestamp now) base counter ∷ ids)
          (next_minter again counter times room)

  stamp : (now : ℤ) → pos_part now < 2 ^ 48 → timestamp now ≡ pos_part now
  stamp now small = omega (arith, small)

  mint-Before :
      (times : List (ℤ × ℤ)) (ts before counter : ℕ)
      → ts < 2 ^ 48
      → before < counter
      → Steady ts times
      → counter + length times ≤ 2 ^ 64
      → Before (id_of ts base before) (mint pid times (at_counter base counter))
  mint-Before [] ts before counter small less steady room = tt
  mint-Before ((now, again) ∷ times) ts before counter small less (rises, bound, steady) room =
      let now_small : timestamp now < 2 ^ 48 = omega arith in
      subst (Before (id_of ts base before))
        (sym (mint-step now again counter times (omega (arith, room))))
        (value_less ts base before (timestamp now) base counter small (omega (arith, less, room))
          now_small (omega (arith, room))
          (later_value ts base before (timestamp now) counter (omega (arith, less, room))
            (omega (arith, rises, stamp now bound)) less))

  mint-Ascends :
      (times : List (ℤ × ℤ)) (since counter : ℕ)
      → Steady since times
      → counter + length times ≤ 2 ^ 64
      → Ascends (mint pid times (at_counter base counter))
  mint-Ascends [] since counter steady room = tt
  mint-Ascends ((now, again) ∷ times) since counter (rises, bound, steady) room =
      let more : counter + 1 + length times ≤ 2 ^ 64 = omega (arith, room) in
      let steady' = subst (λ (t : ℕ). Steady t times) (sym (stamp now bound)) steady in
      subst Ascends (sym (mint-step now again counter times more)) (
        count-id_of (timestamp now) base counter,
        mint-Before times (timestamp now) counter (counter + 1) (omega arith) (omega arith) steady'
            more,
        mint-Ascends times (pos_part now) (counter + 1) steady more,
      )

  others :
      (times : List (ℤ × ℤ)) (ts before counter : ℕ)
      → ts < 2 ^ 48
      → before < counter
      → counter + length times ≤ 2 ^ 64
      → All (λ (t : String). id_of ts base before ≢ t) (mint pid times (at_counter base counter))
  others [] ts before counter small less room = tt
  others ((now, again) ∷ times) ts before counter small less room =
      subst (All (λ (t : String). id_of ts base before ≢ t))
        (sym (mint-step now again counter times (omega (arith, room))))
        (
          other_counter ts base before (timestamp now) counter small (omega arith)
              (omega (arith, room)) less,
          others times ts before (counter + 1) small (omega (arith, less)) (omega (arith, room)),
        )

  mint-Distinct :
      (times : List (ℤ × ℤ)) (counter : ℕ)
      → counter + length times ≤ 2 ^ 64
      → Distinct (mint pid times (at_counter base counter))
  mint-Distinct [] counter room = tt
  mint-Distinct ((now, again) ∷ times) counter room =
      subst Distinct (sym (mint-step now again counter times (omega (arith, room)))) (
        others times (timestamp now) counter (counter + 1) (omega arith) (omega arith)
            (omega (arith, room)),
        mint-Distinct times (counter + 1) (omega (arith, room)),
      )

-- The base that a run of calls uses: the one that is there, or the one that its first call makes.
run_base : ℕ → List (ℤ × ℤ) → ℕ → ℕ
run_base pid [] b = suc b
run_base pid ((now, again) ∷ times) b = base_of pid again b

run_base_nonzero : (pid : ℕ) (times : List (ℤ × ℤ)) (b : ℕ) → run_base pid times b ≢ 0
unfolding run_base
run_base_nonzero pid [] b h = omega (arith, h)
run_base_nonzero pid ((now, again) ∷ times) b h = base_nonzero pid again b h

from_first :
    (pid : ℕ) (times : List (ℤ × ℤ)) (m : Minter)
    → mint pid times m ≡ mint pid times (at_counter (run_base pid times m.base) m.counter)
unfolding run_base ulid
from_first pid [] m = refl
from_first pid ((now, again) ∷ times) m =
    let base = base_of pid again m.base in
    ap
      (λ (b : ℕ).
        id_of (timestamp now) b m.counter
        ∷ mint pid times (record { base = b; counter = (m.counter + 1) % 2 ^ 64 }))
      (sym (base_kept pid again base (base_nonzero pid again m.base)))

-- As long as the clock does not go back and fits in 48 bits, and the counter does not wrap: the ids that
-- a process makes have 26 characters each, and each comes before the next in the order of the texts.
pub minted-Ascends :
    (pid : ℕ) (times : List (ℤ × ℤ)) (m : Minter)
    → Steady 0 times
    → m.counter + length times ≤ 2 ^ 64
    → Ascends (mint pid times m)
minted-Ascends pid times m steady room =
    let base = run_base pid times m.base in
    subst Ascends (sym (from_first pid times m))
      (mint-Ascends pid base (run_base_nonzero pid times m.base) times 0 m.counter steady room)

-- Whatever the clock says: as long as the counter does not wrap, no two of the ids that a process makes
-- are the same.
pub minted-Distinct :
    (pid : ℕ) (times : List (ℤ × ℤ)) (m : Minter)
    → m.counter + length times ≤ 2 ^ 64
    → Distinct (mint pid times m)
minted-Distinct pid times m room =
    let base = run_base pid times m.base in
    subst Distinct (sym (from_first pid times m))
      (mint-Distinct pid base (run_base_nonzero pid times m.base) times m.counter room)
