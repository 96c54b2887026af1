-- ===== src/Approvals/Honest.antt =====
-- What the queue of rs/base/src/approvals.rs, the table and the answers given say of one another.
use tenon.Prelude.{
  ℕ, suc, ◌≤◌, String, true, false, ◌≡◌, refl, Option, none, some, List, [], ◌∷◌, ◌==◌, ℕ_eq, arith,
  All, All-map, ok, err, Bool-cases, Option-cases, inl, inr, if_both, subst,
}
use tenon.Prelude.Int.{ℤ}
use tenon.ApprovalRows.{
  Status, is_pending, Approval, Table, put_approval, approval, still_pending, decide_approval,
}
use tenon.ApprovalRows.Laws.{approval-decide, approval-put, sequence-put, sequence-decide}
use tenon.Approvals.{Pending, Answer, lookup, without, tell}

-- No two entries have one id.
abbrev pub NoTwice : List (ℕ × Pending) → Type 0
NoTwice [] = Unit
NoTwice ((i, p) ∷ rest) = (lookup i rest ≡ none) × NoTwice rest

pub lookup-without_same :
    (id : ℕ) (w : List (ℕ × Pending)) → NoTwice w → lookup id (without id w) ≡ none
lookup-without_same id [] h = refl
lookup-without_same id ((i, p) ∷ rest) h = ground (arith, lookup-without_same id rest h.1, h.0)

lookup-without_other :
    (id j : ℕ) (w : List (ℕ × Pending)) → (id == j) ≡ false → lookup j (without id w) ≡ lookup j w
lookup-without_other id j [] apart = refl
lookup-without_other id j ((i, p) ∷ rest) apart =
    ground (arith, lookup-without_other id j rest apart)

absent_without :
    (id j : ℕ) (w : List (ℕ × Pending)) → lookup j w ≡ none → lookup j (without id w) ≡ none
absent_without id j [] h = refl
absent_without id j ((i, p) ∷ rest) h = ground (arith, absent_without id j rest)

NoTwice-without : (id : ℕ) (w : List (ℕ × Pending)) → NoTwice w → NoTwice (without id w)
NoTwice-without id [] h = tt
NoTwice-without id ((i, p) ∷ rest) h =
    if_both NoTwice (i == id) rest ((i, p) ∷ without id rest) h.1
      (absent_without id i rest h.0, NoTwice-without id rest h.1)

-- A row of the table that has been decided.
abbrev pub Settled : Table → ℕ → Approval → Type 0
Settled t id row = (approval id t ≡ some row) × (is_pending row.status ≡ false)

-- A row of the id, if there is one, has been decided with the status.
abbrev pub Backed : Table → Option ℕ → Status → Type 0
Backed t none status = Unit
Backed t (some id) status = (row : Approval) × Settled t id row × (row.status ≡ status)

pub row_of_each :
    (t : Table) (o : Option ℕ) (status : Status)
    → ((id : ℕ) → o ≡ some id → (row : Approval) × Settled t id row × (row.status ≡ status))
    → Backed t o status
row_of_each t none status f = tt
row_of_each t (some id) status f = f id refl

pub row_told :
    (t : Table) (o : Option ℕ) (status : Status) (id : ℕ)
    → Backed t o status
    → o ≡ some id
    → (row : Approval) × Settled t id row × (row.status ≡ status)
row_told t none status id h e = absurd (ground (arith, e))
row_told t (some i) status id h e =
    let same : i ≡ id = ground (arith, e) in
    subst (λ k. (row : Approval) × Settled t k row × (row.status ≡ status)) same h

-- The verdict of an answer is what the row of its id says.
abbrev pub Agrees : Table → ℕ × Answer → Type 0
Agrees t (channel, err reason) = Unit
Agrees t (channel, ok v) = Backed t v.id v.status

-- Ids are not above the sequence; every request that waits has a pending row, and every answer that
-- was given names a decided row of its status.
pub record Honest (t : Table) (w : List (ℕ × Pending)) (answers : List (ℕ × Answer)) : Type 0 where
  pub fresh : (id : ℕ) (row : Approval) → approval id t ≡ some row → id ≤ t.sequence
  pub apart : NoTwice w
  pub held : (id : ℕ) (p : Pending) → lookup id w ≡ some p → still_pending (approval id t) ≡ true
  pub told : All (Agrees t) answers

-- Decided rows stay as they are.
abbrev pub Keeps : Table → Table → Type 0
Keeps t t' = (id : ℕ) (row : Approval) → Settled t id row → Settled t' id row

pub told_later : (t t' : Table) → Keeps t t' → (a : ℕ × Answer) → Agrees t a → Agrees t' a
told_later t t' keeps (channel, err reason) h = tt
told_later t t' keeps (channel, ok v) h = row_of_each t' v.id v.status (λ id e.
    let (row, settled, same) = row_told t v.id v.status id h e in (row, keeps id row settled, same))

pub decide_Keeps :
    (now : ℤ) (id : ℕ) (status : Status) (said : Option String) (t : Table)
    → Keeps t (decide_approval now id status said t).1
decide_Keeps now id status said t other row (there, done) =
    (ground (arith, approval-decide now id other status said t, there, done), done)

pub put_Keeps :
    (now : ℤ) (env reason kind : String) (status : Status) (t : Table)
    → ((id : ℕ) (row : Approval) → approval id t ≡ some row → id ≤ t.sequence)
    → Keeps t (put_approval now env reason kind status t)
put_Keeps now env reason kind status t fresh id row (there, done) =
    let within = fresh id row there in
    (ground (arith, approval-put now env reason kind status id t, there, within), done)

held_without :
    {P : Type 0} (id : ℕ) (w : List (ℕ × Pending)) (j : ℕ) (p : Pending)
    → NoTwice w
    → lookup j (without id w) ≡ some p
    → (lookup j w ≡ some p → P)
    → P
held_without id w j p apart there f = elim (Bool-cases (id == j)) [
  | inl same ↦ absurd (ground (arith, lookup-without_same id w apart, there, same))
  | inr other ↦ f (ground (arith, lookup-without_other id j w other, there))
]

pub was_there :
    (now : ℤ) (id : ℕ) (status : Status) (said : Option String) (t : Table) (j : ℕ) (row : Approval)
    → approval j (decide_approval now id status said t).1 ≡ some row
    → (before : Approval) × (approval j t ≡ some before)
was_there now id status said t j row there = elim (Option-cases (approval j t)) [
  | inl gone ↦ absurd (ground (arith, approval-decide now id j status said t, there, gone))
  | inr found ↦ found
]

pub within_put :
    (now : ℤ) (env reason kind : String) (status : Status) (t : Table)
    → ((id : ℕ) (row : Approval) → approval id t ≡ some row → id ≤ t.sequence)
    → (id : ℕ) (row : Approval) → approval id (put_approval now env reason kind status t) ≡ some row
    → id ≤ (put_approval now env reason kind status t).sequence
within_put now env reason kind status t fresh id row there =
    let next = sequence-put now env reason kind status t in
    elim (Bool-cases (suc t.sequence == id)) [
      | inl same ↦ ground (arith, next, same)
      | inr other ↦
          let old =
            fresh id row
              (ground (arith, approval-put now env reason kind status id t, there, other)) in
          omega (arith, next, old)
    ]

waits_put :
    (now : ℤ) (env reason kind : String) (status : Status) (t : Table)
    → ((id : ℕ) (row : Approval) → approval id t ≡ some row → id ≤ t.sequence)
    → (id : ℕ) → still_pending (approval id t) ≡ true
    → still_pending (approval id (put_approval now env reason kind status t)) ≡ true
waits_put now env reason kind status t fresh id waits = elim (Option-cases (approval id t)) [
  | inl gone ↦ absurd (ground (arith, waits, gone))
  | inr found ↦
      ground (arith, approval-put now env reason kind status id t, waits, fresh id found.0 found.1)
]

module _ (t : Table) (w : List (ℕ × Pending)) (answers : List (ℕ × Answer)) where
  pub remove-Honest : (id : ℕ) → Honest t w answers → Honest t (without id w) answers
  remove-Honest id h = record {
    fresh = h.fresh;
    apart = NoTwice-without id w h.apart;
    held = λ j p there. held_without id w j p h.apart there (h.held j p);
    told = h.told;
  }

  pub decide-Honest :
      (now : ℤ) (id : ℕ) (status : Status) (said : Option String)
      → lookup id w ≡ none
      → Honest t w answers
      → Honest (decide_approval now id status said t).1 w answers
  decide-Honest now id status said free h = record {
    fresh = λ j row there.
        let (before, found) = was_there now id status said t j row there in
        omega (arith, h.fresh j before found, sequence-decide now id status said t);
    apart = h.apart;
    held = λ j p there.
        ground (arith, approval-decide now id j status said t, there, h.held j p there, free);
    told = All-map answers (told_later t _ (decide_Keeps now id status said t)) h.told;
  }

  pub put-Honest :
      (now : ℤ) (env reason kind : String) (status : Status)
      → Honest t w answers
      → Honest (put_approval now env reason kind status t) w answers
  put-Honest now env reason kind status h = record {
    fresh = λ id row there. within_put now env reason kind status t h.fresh id row there;
    apart = h.apart;
    held = λ id p there. waits_put now env reason kind status t h.fresh id (h.held id p there);
    told = All-map answers (told_later t _ (put_Keeps now env reason kind status t h.fresh)) h.told;
  }

  pub hold-Honest :
      (id : ℕ) (p : Pending)
      → still_pending (approval id t) ≡ true
      → Honest t w answers
      → Honest t ((id, p) ∷ without id w) answers
  hold-Honest id p waits h = record {
    fresh = h.fresh;
    apart = (lookup-without_same id w h.apart, NoTwice-without id w h.apart);
    held = λ j p' there. ground (arith, waits, there, lookup-without_other id j w, h.held j p');
    told = h.told;
  }

pub tell-Honest :
    (t : Table) (w : List (ℕ × Pending)) (channels : List ℕ) (answer : Answer)
    (answers : List (ℕ × Answer))
    → ((channel : ℕ) → Agrees t (channel, answer))
    → Honest t w answers
    → Honest t w (tell channels answer answers)
tell-Honest t w [] answer answers agrees h = h
tell-Honest t w (channel ∷ channels) answer answers agrees h =
    tell-Honest t w channels answer ((channel, answer) ∷ answers) agrees
      (record { fresh = h.fresh; apart = h.apart; held = h.held; told = (agrees channel, h.told) })
