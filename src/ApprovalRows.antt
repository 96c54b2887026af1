-- ===== src/ApprovalRows.antt =====
-- The approvals table (rs/storage/src/approvals.rs) of one state file: its rows, the newest first, and
-- the sequence that its ids are taken from. `now` is the clock; a statement that fails is left to the
-- caller, and changes nothing.
pub mod Laws
use tenon.Prelude.{
  ℕ, suc, max, String, Bool, true, false, ◌||◌, ◌&&◌, not, Option, none, some, List, [], ◌∷◌, ◌==◌,
  ℕ_eq, String_eq, retain, take, length, if◌then◌else◌,
}
use tenon.Prelude.Int.{ℤ, ◌-ℤ◌, leb_ℤ, max_ℤ, pos}

pub data Status : Type 0 where
  pending : Status
  approved : Status
  denied : Status
  expired : Status

unfoldable pub is_pending : Status → Bool
is_pending pending = true
is_pending _ = false

-- The text of a status in the table.
abbrev pub status_text : Status → String
status_text pending = "pending"
status_text approved = "approved"
status_text denied = "denied"
status_text expired = "expired"

pub record Approval : Type 0 where
  pub id : ℕ
  pub env : String
  pub reason : String
  pub kind : String
  pub status : Status
  pub note : Option String
  pub created_at : ℤ
  pub decided_at : Option ℤ

-- An id is never given twice, so the sequence is a part of the file.
pub record Table : Type 0 where
  pub rows : List Approval
  pub sequence : ℕ

abbrev pub empty : Table
empty = record { rows = []; sequence = 0 }

abbrev decided_now : ℤ → Status → Option ℤ
decided_now at pending = none
decided_now at _ = some at

abbrev pub new_row : ℤ → String → String → String → Status → Table → Approval
new_row now env reason kind status t = record {
  id = suc t.sequence;
  env = env;
  reason = reason;
  kind = kind;
  status = status;
  note = none;
  created_at = now;
  decided_at = decided_now now status;
}

-- `put_approval`: the id is the sequence's afterwards.
unfoldable pub put_approval : ℤ → String → String → String → Status → Table → Table
put_approval now env reason kind status t = record {
  rows = new_row now env reason kind status t ∷ t.rows;
  sequence = suc t.sequence;
}

abbrev pub row_of : ℕ → List Approval → Option Approval
row_of id [] = none
row_of id (row ∷ rows) = if row.id == id then some row else row_of id rows

unfoldable pub approval : ℕ → Table → Option Approval
approval id t = row_of id t.rows

abbrev pub decided : ℤ → Status → Option String → Approval → Approval
decided now status said row = record row { status = status; decided_at = some now; note = said }

-- `update … where id = ?1 and status = 'pending'`
abbrev pub decide_rows : ℤ → ℕ → Status → Option String → List Approval → List Approval
decide_rows now id status said [] = []
decide_rows now id status said (row ∷ rows) =
    (if row.id == id && is_pending row.status then decided now status said row else row)
    ∷ decide_rows now id status said rows

abbrev pub still_pending : Option Approval → Bool
still_pending none = false
still_pending (some row) = is_pending row.status

-- `decide_approval`: whether a row changed, and the table. The id is the primary key.
unfoldable pub decide_approval : ℤ → ℕ → Status → Option String → Table → Bool × Table
decide_approval now id status said t =
    (still_pending (approval id t), record t { rows = decide_rows now id status said t.rows })

abbrev pub has_status : Option String → Approval → Bool
has_status none row = true
has_status (some text) row = status_text row.status == text

abbrev pub reverse_onto : List Approval → List Approval → List Approval
reverse_onto [] acc = acc
reverse_onto (row ∷ rows) acc = reverse_onto rows (row ∷ acc)

-- `approvals`: the newest `limit` rows, the oldest of them first.
unfoldable pub approvals : Option String → ℕ → Table → List Approval
approvals status limit t = reverse_onto (take (max limit 1) (retain (has_status status) t.rows)) []

abbrev expire_rows : ℤ → ℤ → List Approval → List Approval
expire_rows now cutoff [] = []
expire_rows now cutoff (row ∷ rows) =
    (if is_pending row.status && leb_ℤ row.created_at cutoff
      then record row { status = expired; decided_at = some now }
      else row)
    ∷ expire_rows now cutoff rows

abbrev count_old : ℤ → List Approval → ℕ
count_old cutoff rows =
    length (retain (λ (row : Approval). is_pending row.status && leb_ℤ row.created_at cutoff) rows)

-- `expire_approvals`: how many rows changed, and the table.
unfoldable pub expire_approvals : ℤ → ℤ → Table → ℕ × Table
expire_approvals now older_than_ms t =
    let cutoff = now -ℤ max_ℤ older_than_ms (pos 0) in
    (count_old cutoff t.rows, record t { rows = expire_rows now cutoff t.rows })
