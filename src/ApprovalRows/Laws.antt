-- ===== src/ApprovalRows/Laws.antt =====
-- What the statements of the approvals table (rs/storage/src/approvals.rs) do to the row of an id.
use tenon.Prelude.{
  Bool-cases, inl, inr, ℕ, suc, String, false, ◌≡◌, refl, Option, none, some, List, [], ◌∷◌, ◌==◌,
  ℕ_eq, arith, if◌then◌else◌,
}
use tenon.Prelude.Int.{ℤ}
use tenon.ApprovalRows.{
  Status, is_pending, Approval, Table, put_approval, approval, row_of, decided, decide_rows,
  decide_approval, new_row,
}

-- What an update makes of the row it finds.
abbrev pub update_row : ℤ → Status → Option String → Option Approval → Option Approval
update_row now status said none = none
update_row now status said (some row) =
    if is_pending row.status then some (decided now status said row) else some row

row_of-decide_same :
    (now : ℤ) (id : ℕ) (status : Status) (said : Option String) (rows : List Approval)
    → row_of id (decide_rows now id status said rows) ≡ update_row now status said (row_of id rows)
row_of-decide_same now id status said [] = refl
row_of-decide_same now id status said (row ∷ rows) =
    ground (arith, row_of-decide_same now id status said rows)

row_of-decide_other :
    (now : ℤ) (id other : ℕ) (status : Status) (said : Option String) (rows : List Approval)
    → (id == other) ≡ false
    → row_of other (decide_rows now id status said rows) ≡ row_of other rows
row_of-decide_other now id other status said [] apart = refl
row_of-decide_other now id other status said (row ∷ rows) apart =
    ground (arith, row_of-decide_other now id other status said rows apart)

pub approval-decide :
    (now : ℤ) (id other : ℕ) (status : Status) (said : Option String) (t : Table)
    → approval other (decide_approval now id status said t).1
      ≡ (if id == other then update_row now status said (approval other t) else approval other t)
unfolding approval decide_approval
approval-decide now id other status said t = elim (Bool-cases (id == other)) [
  | inl same ↦ ground (arith, row_of-decide_same now id status said t.rows, same)
  | inr apart ↦ ground (arith, row_of-decide_other now id other status said t.rows apart, apart)
]

pub approval-put :
    (now : ℤ) (env reason kind : String) (status : Status) (id : ℕ) (t : Table)
    → approval id (put_approval now env reason kind status t) ≡ (
        if suc t.sequence == id
        then row_of id (put_approval now env reason kind status t).rows
        else approval id t)
unfolding approval put_approval
approval-put now env reason kind status id t = ground arith

pub sequence-put :
    (now : ℤ) (env reason kind : String) (status : Status) (t : Table)
    → (put_approval now env reason kind status t).sequence ≡ suc t.sequence
unfolding put_approval
sequence-put now env reason kind status t = refl

pub sequence-decide :
    (now : ℤ) (id : ℕ) (status : Status) (said : Option String) (t : Table)
    → (decide_approval now id status said t).1.sequence ≡ t.sequence
unfolding decide_approval
sequence-decide now id status said t = refl

pub approval-put_new :
    (now : ℤ) (env reason kind : String) (status : Status) (t : Table)
    → approval (suc t.sequence) (put_approval now env reason kind status t)
      ≡ some (new_row now env reason kind status t)
unfolding approval put_approval
approval-put_new now env reason kind status t = ground arith
