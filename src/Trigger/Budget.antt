-- ===== src/Trigger/Budget.antt =====
-- The rate of the outbound calls (`spend` of rs/base/src/trigger.rs).
use tenon.Prelude.{
  ℕ, ◌+◌, ◌≤◌, String, Bool, true, false, ◌≡◌, ◌≢◌, refl, sym, ap, ◌∙◌, subst, Option, some, List,
  [], ◌∷◌, ◌==◌, ℕ_eq, String_eq, leb, arith, if_both, if_split, if◌then◌else◌,
}
use tenon.Prelude.Int.{ℤ, ◌-ℤ◌, ◌<ℤ◌, leb_ℤ}
use tenon.Trigger.{TriggerConfig, Budgets, window_ms, entry_or, entry_at, put, spend, spend_at}

-- The calls granted to `id` by a run of requests, each a time and an id.
abbrev pub one_if : Bool → ℕ
one_if true = 1
one_if false = 0

abbrev pub granted_to : TriggerConfig → String → Budgets → List (ℤ × String) → ℕ
granted_to config id budgets [] = 0
granted_to config id budgets ((now, other) ∷ requests) =
    let (granted, budgets') = spend config now other budgets in
    let rest = granted_to config id budgets' requests in
    if other == id then one_if granted + rest else rest

-- Each request comes less than a window after `start`.
abbrev pub InWindow : ℤ → List (ℤ × String) → Type 0
InWindow start [] = Unit
InWindow start ((now, id) ∷ requests) = (now -ℤ start <ℤ window_ms) × InWindow start requests

-- A window that has not run out stays.
entry_stays :
    (now start : ℤ) (calls : ℕ)
    → now -ℤ start <ℤ window_ms
    → entry_at now (start, calls) ≡ (start, calls)
entry_stays now start calls within =
    if_split (λ (e : ℤ × ℕ). e ≡ (start, calls)) (leb_ℤ window_ms (now -ℤ start)) _ _
      (λ out. absurd (ground (arith, within, out))) (λ still. refl)

spend-limited :
    (config : TriggerConfig) (now : ℤ) (id : String) (budgets : Budgets)
    → config.calls_per_min ≢ 0
    → spend config now id budgets
      ≡ spend_at config.calls_per_min id budgets (entry_at now (entry_or now (budgets id)))
unfolding spend
spend-limited config now id budgets limited =
    if_split
      (λ (r : Bool × Budgets).
        r ≡ spend_at config.calls_per_min id budgets (entry_at now (entry_or now (budgets id))))
      (config.calls_per_min == 0) _ _ (λ none_set. absurd (ground (arith, limited))) (λ set. refl)

-- One request for the id in its window.
spend_within :
    (config : TriggerConfig) (now start : ℤ) (id : String) (budgets : Budgets) (calls : ℕ)
    → config.calls_per_min ≢ 0
    → budgets id ≡ some (start, calls)
    → now -ℤ start <ℤ window_ms
    → spend config now id budgets ≡ spend_at config.calls_per_min id budgets (start, calls)
spend_within config now start id budgets calls limited entry within =
    spend-limited config now id budgets limited
    ∙ ap (λ o. spend_at config.calls_per_min id budgets (entry_at now (entry_or now o))) entry
    ∙ ap (spend_at config.calls_per_min id budgets) (entry_stays now start calls within)

-- An equality test both ways round.
apart_sym : (a b : String) → (a == b) ≡ true → (b == a) ≡ false → ⊥
apart_sym a b same differ =
    let back = (String_eq.beq_iff b a).1 (sym ((String_eq.beq_iff a b).0 same)) in
    ground (arith, back, differ)

put-same : (budgets : Budgets) (id : String) (e : ℤ × ℕ) → put budgets id e id ≡ some e
put-same budgets id e = rw ((String_eq.beq_iff id id).1 refl) refl

-- A request for another id leaves the entry alone.
spend_other :
    (config : TriggerConfig) (now : ℤ) (id other : String) (budgets : Budgets)
    → (other == id) ≡ false
    → (spend config now other budgets).1 id ≡ budgets id
unfolding spend
spend_other config now id other budgets differ =
    if_both (λ (r : Bool × Budgets). r.1 id ≡ budgets id) (config.calls_per_min == 0) _ _ refl
      (if_split (λ (o : Option (ℤ × ℕ)). o ≡ budgets id) (id == other) _ _
        (λ same. absurd (apart_sym id other same differ)) (λ apart. refl))

granted_here :
    (config : TriggerConfig) (id : String) (now start : ℤ)
    → config.calls_per_min ≢ 0
    → (requests : List (ℤ × String)) (budgets : Budgets) (calls : ℕ)
    → budgets id ≡ some (start, calls)
    → calls ≤ config.calls_per_min
    → now -ℤ start <ℤ window_ms
    → ((b : Budgets) (c : ℕ)
        → b id ≡ some (start, c)
        → c ≤ config.calls_per_min
        → granted_to config id b requests + c ≤ config.calls_per_min)
    → one_if (spend config now id budgets).0
        + granted_to config id (spend config now id budgets).1 requests
        + calls
      ≤ config.calls_per_min
granted_here config id now start limited requests budgets calls entry le within ih =
    let Fits = λ (r : Bool × Budgets).
      one_if r.0 + granted_to config id r.1 requests + calls ≤ config.calls_per_min in
    let put_in = λ (e : ℤ × ℕ). put budgets id e in
    subst Fits (sym (spend_within config now start id budgets calls limited entry within)) (
      if_split (λ (r : Bool × (ℤ × ℕ)). Fits (r.0, put budgets id r.1))
        (leb config.calls_per_min calls) (false, (start, calls)) (true, (start, calls + 1))
        (λ full.
          let rest = ih (put_in (start, calls)) calls (put-same budgets id (start, calls)) le in
          omega (arith, rest))
        (λ room.
          let more : calls + 1 ≤ config.calls_per_min = ground (arith, room) in
          let rest =
            ih (put_in (start, calls + 1)) (calls + 1) (put-same budgets id (start, calls + 1))
              more in
          omega (arith, rest)))

-- With a limit set: however the requests for the ids interleave, while they come less than a minute
-- after the start of an id's window, those granted to the id and those counted in its window before
-- are together at most `calls_per_min`.
pub granted-le :
    (config : TriggerConfig) (id : String) (start : ℤ)
    → config.calls_per_min ≢ 0
    → (requests : List (ℤ × String)) (budgets : Budgets) (calls : ℕ)
    → budgets id ≡ some (start, calls)
    → calls ≤ config.calls_per_min
    → InWindow start requests
    → granted_to config id budgets requests + calls ≤ config.calls_per_min
granted-le config id start limited [] budgets calls entry le within = omega (arith, le)
granted-le config id start limited ((now, other) ∷ requests) budgets calls entry le within =
    if_split (λ n. n + calls ≤ config.calls_per_min) (other == id) _ _
      (λ same.
        let is_id : other ≡ id = (String_eq.beq_iff other id).0 same in
        subst
          (λ k.
            one_if (spend config now k budgets).0
              + granted_to config id (spend config now k budgets).1 requests
              + calls
            ≤ config.calls_per_min)
          (sym is_id)
          (granted_here config id now start limited requests budgets calls entry le within.0
            (λ b c e l. granted-le config id start limited requests b c e l within.1)))
      (λ differ.
        granted-le config id start limited requests (spend config now other budgets).1 calls
          (spend_other config now id other budgets differ ∙ entry) le within.1)
