-- ===== src/Upgrade/Rows.antt =====
-- The row of a proposal (rs/storage/src/upgrades.rs) under the updates of `upgrade_update`
-- (rs/base/src/upgrade.rs).
use tenon.Prelude.{
  ℕ, true, ◌≡◌, refl, Option, none, some, List, [], ◌∷◌, ◌++◌, ◌==◌, ℕ_eq, arith, Bool-cases, inl,
  inr, subst, if_split,
}
use tenon.Prelude.Int.{ℤ}
use tenon.Upgrade.{
  World, Host, Upgrade, Upgrades, upgrade, set_upgrade, changed, change_rows, row_of, read,
  upgrade_update, update_row,
}
use tenon.Upgrade.Drive.{Command, apply}

row_of-change :
    (id : ℕ) (f : Upgrade → Upgrade) (rows : List Upgrade) (row : Upgrade)
    → ((r : Upgrade) → (f r).id ≡ r.id)
    → row_of id rows ≡ some row
    → row_of id (change_rows id f rows) ≡ some (f row)
row_of-change id f [] row keeps there = absurd (ground (arith, there))
row_of-change id f (r ∷ rows) row keeps there = elim (Bool-cases (r.id == id)) [
  | inl hit ↦ let same : r ≡ row = ground (arith, there, hit) in grind (arith, hit, same, keeps r)
  | inr miss ↦ grind (arith, miss, row_of-change id f rows row keeps, there)
]

-- What a list of commands makes of a row.
abbrev pub follow : ℤ → List Command → Upgrade → Upgrade
follow now [] row = row
follow now (c ∷ commands) row =
    follow now commands (changed now c.status c.reason (row.phases ++ c.stage ∷ []) row)

read_row :
    (w : World) (id : ℕ) (h : Host) (row : Upgrade)
    → w.reads ≡ true
    → upgrade id h.table ≡ some row
    → read w id h ≡ some row
read_row w id h row reads there = ground (arith, reads, there)

updated_there :
    (w : World) (id : ℕ) (c : Command) (h : Host) (row : Upgrade) (seen : Option Upgrade)
    → w.sets ≡ true
    → seen ≡ some row
    → upgrade id h.table ≡ some row
    → upgrade id (update_row w id c.status c.reason (some c.stage) seen h).table
      ≡ some (changed w.now c.status c.reason (row.phases ++ c.stage ∷ []) row)
unfolding upgrade set_upgrade
updated_there w id c h row none sets at there = absurd (ground (arith, at))
updated_there w id c h row (some r) sets at there =
    let f = changed w.now c.status c.reason (row.phases ++ c.stage ∷ []) in
    let same : row ≡ r = ground (arith, at) in
    let first = row_of-change id f h.table.rows row (λ x. refl) there in
    subst
      (λ (x : Upgrade).
        upgrade id (update_row w id c.status c.reason (some c.stage) (some x) h).table
        ≡ some (f row))
      same
      (if_split (λ (t : Upgrades). row_of id t.rows ≡ some (f row)) w.sets
        (set_upgrade w.now id c.status c.reason (row.phases ++ c.stage ∷ []) h.table) h.table
        (λ e. first) (λ e. absurd (ground (arith, e, sets))))

pub apply-follow :
    (w : World) (id : ℕ) (commands : List Command) (h : Host) (row : Upgrade)
    → w.reads ≡ true
    → w.sets ≡ true
    → upgrade id h.table ≡ some row
    → upgrade id (apply w id commands h).table ≡ some (follow w.now commands row)
unfolding upgrade_update
apply-follow w id [] h row reads sets there = there
apply-follow w id (c ∷ commands) h row reads sets there =
    apply-follow w id commands _ _ reads sets
      (updated_there w id c h row _ sets (read_row w id h row reads there) there)
