-- ===== src/Retention/Packs.antt =====
-- The packs that a pass of rs/storage/src/retain.rs leaves.
use tenon.Prelude.{
  ℕ, Bool, true, false, not, ◌≡◌, refl, sym, ap, ◌∙◌, List, [], ◌∷◌, retain, if_both, if_split,
  arith, All, ◌↔◌, String, String_eq, contains, ◌==◌, Bool-cases, inl, inr, subst, ◌+◌, suc, ◌%◌,
  ℕ_eq, ◌&&◌, &&-eq_true,
}
use Prim.Native.Nat.{◌∣◌}
use native.Mathlib.Nat.{dvd_iff_mod-eq-zero}
use tenon.Prelude.Int.{
  ℤ, pos, negsuc, pos_part, neg_part, ◌+ℤ◌, ◌-ℤ◌, ◌≤ℤ◌, ◌<ℤ◌, ltb_ℤ, max_ℤ, eq_of_parts, int_laws,
  ltb_ℤ→lt,
}
use tenon.Retention.{
  Retention, Pack, Tables, same_int, keeps, doomed, among, without_steps, greatest, greatest_from,
  divides, steps_of, stage, prune_steps, prune_window, retain_pass, prune_packs, prune_snapshots,
  prune_events, prune_results, prune_blobs, prune_envelopes,
}

-- The step is the primary key.
abbrev pub NoTwice : List Pack → Type 0
NoTwice [] = Unit
NoTwice (p ∷ packs) = (among (steps_of packs) p.step ≡ false) × NoTwice packs

-- `newest` is the greatest step, or 0 if there is no pack.
pub data HasStep (step : ℤ) : List Pack → Type 0 where
  first : {p : Pack} {packs : List Pack} → p.step ≡ step → HasStep step (p ∷ packs)
  later : {p : Pack} {packs : List Pack} → HasStep step packs → HasStep step (p ∷ packs)

abbrev pub IsNewest : ℤ → List Pack → Type 0
IsNewest newest [] = newest ≡ pos 0
IsNewest newest (p ∷ packs) =
    All (λ (q : Pack). q.step ≤ℤ newest) (p ∷ packs) × HasStep newest (p ∷ packs)

pub data Named (reference : String) : List String → Type 0 where
  here : {names : List String} → Named reference (reference ∷ names)
  further :
      {name : String} {names : List String} → Named reference names → Named reference (name ∷ names)

-- A number without its sign.
abbrev pub size : ℤ → ℕ
size a = pos_part a + neg_part a

-- What a policy means to keep: the packs whose step is less than `keep_steps` (or 0) behind the
-- newest step, those whose step is a multiple of a milestone above 0, and those of a listed reference.
pub data Kept (policy : Retention) (newest : ℤ) (p : Pack) : Type 0 where
  recent : newest <ℤ p.step +ℤ max_ℤ policy.keep_steps (pos 0) → Kept policy newest p
  milestone :
      pos 0 <ℤ policy.milestone_every
      → size policy.milestone_every ∣ size p.step
      → Kept policy newest p
  listed : Named p.reference policy.keep_refs → Kept policy newest p

-- A list without the elements that lack a property, in its order.
pub data Thins (P : Pack → Type 0) : List Pack → List Pack → Type 0 where
  done : Thins P [] []
  keep :
      {p : Pack} {all some_of : List Pack}
      → P p
      → Thins P all some_of
      → Thins P (p ∷ all) (p ∷ some_of)
  drop :
      {p : Pack} {all some_of : List Pack} → ¬ P p → Thins P all some_of → Thins P (p ∷ all) some_of

greatest_below :
    (n bound : ℤ) (packs : List Pack)
    → n ≤ℤ bound
    → All (λ (q : Pack). q.step ≤ℤ bound) packs
    → greatest_from n (steps_of packs) ≤ℤ bound
greatest_below n bound [] le each = le
greatest_below n bound (p ∷ packs) le each =
    greatest_below (max_ℤ n p.step) bound packs (ground (arith, each.0)) each.1

below_greatest : (n : ℤ) (packs : List Pack) → n ≤ℤ greatest_from n (steps_of packs)
below_greatest n [] = omega arith
below_greatest n (p ∷ packs) =
    let rest = below_greatest (max_ℤ n p.step) packs in
    let first_two : n ≤ℤ max_ℤ n p.step = ground arith in omega (arith, rest, first_two)

step_below :
    (n step : ℤ) (packs : List Pack) → HasStep step packs → step ≤ℤ greatest_from n (steps_of packs)
step_below n step [] h = elim h [ ]
step_below n step (p ∷ packs) (first e) =
    let rest = below_greatest (max_ℤ n p.step) packs in
    let second : p.step ≤ℤ max_ℤ n p.step = ground arith in
    subst (λ s. s ≤ℤ greatest_from (max_ℤ n p.step) (steps_of packs)) e
      (omega (arith, rest, second))
step_below n step (p ∷ packs) (later h) = step_below (max_ℤ n p.step) step packs h

head_below :
    (newest : ℤ) (p : Pack) (packs : List Pack)
    → HasStep newest (p ∷ packs)
    → newest ≤ℤ greatest_from p.step (steps_of packs)
head_below newest p packs (first e) =
    subst (λ s. s ≤ℤ greatest_from p.step (steps_of packs)) e (below_greatest p.step packs)
head_below newest p packs (later h) = step_below p.step newest packs h

newest-greatest :
    (newest : ℤ) (packs : List Pack) → IsNewest newest packs → newest ≡ greatest (steps_of packs)
newest-greatest newest [] h = h
newest-greatest newest (p ∷ packs) (each, there) =
    let above = head_below newest p packs there in
    let below = greatest_below p.step newest packs each.0 each.1 in
    eq_of_parts newest (greatest_from p.step (steps_of packs)) (omega (arith, above, below))

contains_iff :
    (names : List String) (reference : String)
    → (contains names reference ≡ true) ↔ Named reference names
contains_iff names reference = (found names, there names)
  where
    found : (ns : List String) → contains ns reference ≡ true → Named reference ns
    found [] h = absurd (ground (arith, h))
    found (n ∷ ns) h = elim (Bool-cases (n == reference)) [
      | inl same ↦
          subst (λ m. Named reference (m ∷ ns)) (sym ((String_eq.beq_iff n reference).0 same)) here
      | inr apart ↦ further (found ns (ground (arith, h, apart)))
    ]

    there : (ns : List String) → Named reference ns → contains ns reference ≡ true
    there [] h = elim h [ ]
    there (n ∷ ns) here = ground (arith, (String_eq.beq_iff n n).1 refl)
    there (n ∷ ns) (further h) = ground (arith, there ns h)

mod_iff : (m n : ℕ) → (n % m == 0 ≡ true) ↔ (m ∣ n)
mod_iff m n = (
  λ e. (dvd_iff_mod-eq-zero m).1 ((ℕ_eq.beq_iff (n % m) 0).0 e),
  λ d. (ℕ_eq.beq_iff (n % m) 0).1 ((dvd_iff_mod-eq-zero m).0 d),
)

add_zero : (n : ℕ) → n + 0 ≡ n
add_zero n = omega arith

zero_add : (n : ℕ) → 0 + n ≡ n
zero_add n = omega arith

divides_iff :
    (every step : ℤ) → pos 0 <ℤ every → (divides every step ≡ true) ↔ (size every ∣ size step)
divides_iff (pos m) (pos n) h = rw (add_zero m, add_zero n) (mod_iff m n)
divides_iff (pos m) (negsuc n) h = rw (add_zero m, zero_add (suc n)) (mod_iff m (suc n))
divides_iff (negsuc m) step h = absurd (omega (arith, h))

ltb_of_lt : (a b : ℤ) → a <ℤ b → ltb_ℤ a b ≡ true
ltb_of_lt a b h = ground arith

keeps-Kept :
    (policy : Retention) (newest : ℤ) (p : Pack)
    → keeps policy p.step newest p.reference ≡ true
    → Kept policy newest p
unfolding keeps
keeps-Kept policy newest p h =
    elim (Bool-cases (ltb_ℤ (newest -ℤ max_ℤ policy.keep_steps (pos 0)) p.step)) [
      | inl new ↦
          recent (omega (int_laws, ltb_ℤ→lt (newest -ℤ max_ℤ policy.keep_steps (pos 0)) p.step new))
      | inr old ↦
          elim (Bool-cases
            (ltb_ℤ (pos 0) policy.milestone_every && divides policy.milestone_every p.step)) [
              | inl stone ↦
                  let (on, each) =
                    &&-eq_true (ltb_ℤ (pos 0) policy.milestone_every)
                      (divides policy.milestone_every p.step) stone in
                  let above = ltb_ℤ→lt (pos 0) policy.milestone_every on in
                  milestone above ((divides_iff policy.milestone_every p.step above).0 each)
              | inr none ↦
                  listed
                    ((contains_iff policy.keep_refs p.reference).0 (ground (arith, h, old, none)))
            ]
    ]

Kept-keeps :
    (policy : Retention) (newest : ℤ) (p : Pack)
    → Kept policy newest p
    → keeps policy p.step newest p.reference ≡ true
unfolding keeps
Kept-keeps policy newest p (recent h) =
    let new = ltb_of_lt (newest -ℤ max_ℤ policy.keep_steps (pos 0)) p.step (omega (int_laws, h)) in
    ground (arith, new)
Kept-keeps policy newest p (milestone on h) =
    let above = ltb_of_lt (pos 0) policy.milestone_every on in
    let each = (divides_iff policy.milestone_every p.step on).1 h in ground (arith, above, each)
Kept-keeps policy newest p (listed h) =
    let there = (contains_iff policy.keep_refs p.reference).1 h in ground (arith, there)

retain-Thins :
    (policy : Retention) (newest : ℤ) (packs : List Pack)
    → Thins
        (Kept policy newest)
        packs
        (retain (λ (p : Pack). keeps policy p.step newest p.reference) packs)
retain-Thins policy newest [] = done
retain-Thins policy newest (p ∷ packs) =
    if_split (Thins (Kept policy newest) (p ∷ packs)) (keeps policy p.step newest p.reference) _ _
      (λ on. keep (keeps-Kept policy newest p on) (retain-Thins policy newest packs))
      (λ off.
        drop (λ k. absurd (ground (arith, off, Kept-keeps policy newest p k)))
          (retain-Thins policy newest packs))

module _ (policy : Retention) (newest : ℤ) where
  abbrev stays : Pack → Bool
  stays p = keeps policy p.step newest p.reference

  -- A step that no pack has is not doomed.
  doomed_there :
      (packs : List Pack) (step : ℤ)
      → among (steps_of packs) step ≡ false
      → among (doomed policy newest packs) step ≡ false
  doomed_there [] step h = refl
  doomed_there (p ∷ packs) step h = ground (arith, h, doomed_there packs step)

  same_refl : (a : ℤ) → same_int a a ≡ true
  same_refl a = ground arith

  apart_each :
      (step : ℤ) (packs : List Pack)
      → among (steps_of packs) step ≡ false
      → All (λ (q : Pack). same_int step q.step ≡ false) packs
  apart_each step [] h = tt
  apart_each step (q ∷ packs) h = (ground (arith, h), apart_each step packs (ground (arith, h)))

  -- The steps are those of the packs that do not stay.
  abbrev Agree : List ℤ → List Pack → Type 0
  Agree steps packs = All (λ (q : Pack). among steps q.step ≡ not (stays q)) packs

  one_more :
      (step : ℤ) (steps : List ℤ) (packs : List Pack)
      → All (λ (q : Pack). same_int step q.step ≡ false) packs
      → Agree steps packs
      → Agree (step ∷ steps) packs
  one_more step steps [] apart h = tt
  one_more step steps (q ∷ packs) apart h =
      (ground (arith, apart.0, h.0), one_more step steps packs apart.1 h.1)

  doomed-Agree : (packs : List Pack) → NoTwice packs → Agree (doomed policy newest packs) packs
  doomed-Agree [] once = tt
  doomed-Agree (p ∷ packs) once =
      let rest = doomed-Agree packs once.1 in
      let gone = doomed_there packs p.step once.0 in
      if_split (λ (steps : List ℤ). Agree steps (p ∷ packs)) (stays p) (doomed policy newest packs)
        (p.step ∷ doomed policy newest packs) (λ e. (ground (arith, gone, e), rest))
        (λ e. (
          ground (arith, e, same_refl p.step),
          one_more p.step (doomed policy newest packs) packs (apart_each p.step packs once.0) rest,
        ))

  without-Agree :
      (steps : List ℤ) (packs : List Pack)
      → Agree steps packs
      → without_steps steps packs ≡ retain stays packs
  without-Agree steps [] h = refl
  without-Agree steps (p ∷ packs) h = ground (arith, h.0, without-Agree steps packs h.1)

packs_later :
    (works : Bool) (f : Tables → Tables) (p : Bool × Tables)
    → ((t : Tables) → (f t).packs ≡ t.packs)
    → (stage works f p).1.packs ≡ p.1.packs
packs_later works f (false, t) same = refl
packs_later works f (true, t) same =
    if_both (λ (q : Bool × Tables). q.1.packs ≡ t.packs) works (true, f t) (false, t) (same t) refl

window_packs :
    (works : ℕ → Bool) (policy : Retention) (p : Bool × Tables)
    → (prune_window works policy p).1.packs ≡ p.1.packs
window_packs works policy (sound, t) =
    let last = greatest t.events -ℤ policy.keep_events in
    let first = stage (works 2) (prune_events last) (sound, t) in
    if_both (λ (q : Bool × Tables). q.1.packs ≡ t.packs) (ltb_ℤ (pos 0) policy.keep_events)
      (stage (works 3) prune_results first) (sound, t)
      (packs_later (works 3) prune_results first (λ u. refl)
        ∙ packs_later (works 2) (prune_events last) (sound, t) (λ u. refl))
      refl

no_steps : (packs : List Pack) → without_steps [] packs ≡ packs
no_steps [] = refl
no_steps (p ∷ packs) = ap (λ (ps : List Pack). p ∷ ps) (no_steps packs)

pruned_packs :
    (works : ℕ → Bool) (steps : List ℤ) (t : Tables)
    → works 0 ≡ true
    → (prune_steps works steps (true, t)).1.packs ≡ without_steps steps t.packs
pruned_packs works [] t sound = sym (no_steps t.packs)
pruned_packs works (s ∷ steps) t sound =
    packs_later (works 1) (prune_snapshots (s ∷ steps))
      (stage (works 0) (prune_packs (s ∷ steps)) (true, t)) (λ u. refl)
    ∙ if_split (λ (q : Bool × Tables). q.1.packs ≡ without_steps (s ∷ steps) t.packs) (works 0)
        (true, prune_packs (s ∷ steps) t) (false, t) (λ e. refl)
        (λ e. absurd (ground (arith, e, sound)))

retain_keeps :
    (works : ℕ → Bool) (now : ℤ) (policy : Retention) (t : Tables)
    → NoTwice t.packs
    → works 0 ≡ true
    → (retain_pass works now policy t).1.packs
      ≡ retain (λ (p : Pack). keeps policy p.step (greatest (steps_of t.packs)) p.reference) t.packs
unfolding retain_pass
retain_keeps works now policy t once sound =
    let newest = greatest (steps_of t.packs) in
    let steps = doomed policy newest t.packs in
    let cutoff = now -ℤ max_ℤ policy.blob_grace_ms (pos 0) in
    let first = prune_steps works steps (true, t) in
    let window = prune_window works policy first in
    packs_later (works 5) (prune_envelopes now) (stage (works 4) (prune_blobs cutoff) window)
      (λ u. refl)
    ∙ packs_later (works 4) (prune_blobs cutoff) window (λ u. refl)
    ∙ window_packs works policy first
    ∙ pruned_packs works steps t sound
    ∙ without-Agree policy newest steps t.packs (doomed-Agree policy newest t.packs once)

-- If no two packs have one step, `newest` is the greatest step of all packs (0 if there is none), and
-- the statement that prunes the packs succeeds, whatever becomes of those after it: the pass leaves,
-- in their order, exactly the packs whose step is less than `keep_steps` (or 0) behind `newest`,
-- those whose step is a multiple of `milestone_every` if that is above 0, and those whose reference
-- the policy lists.
pub retain_pass-Thins :
    (works : ℕ → Bool) (now : ℤ) (policy : Retention) (t : Tables) (newest : ℤ)
    → NoTwice t.packs
    → IsNewest newest t.packs
    → works 0 ≡ true
    → Thins (Kept policy newest) t.packs (retain_pass works now policy t).1.packs
retain_pass-Thins works now policy t newest once last sound =
    let same = newest-greatest newest t.packs last in
    subst (Thins (Kept policy newest) t.packs)
      (sym (
        retain_keeps works now policy t once sound
        ∙ ap (λ n. retain (λ (p : Pack). keeps policy p.step n p.reference) t.packs) (sym same)))
      (retain-Thins policy newest t.packs)
