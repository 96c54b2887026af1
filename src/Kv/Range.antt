-- ===== src/Kv/Range.antt =====
-- The reads over a prefix (`range`, `watch_snapshot` and `scan_all` of rs/base/src/kv.rs) with their
-- queries (rs/storage/src/kv.rs). `like` is SQLite's test of a text against a pattern, whose escape is
-- the backslash, and `queries` tells whether a query succeeds.
use tenon.Prelude.{
  ℕ, String, Bool, ◌&&◌, some, List, [], ◌∷◌, ◌==◌, String_eq, ltb, map, retain, if◌then◌else◌,
}
use tenon.Prelude.Int.{ℤ}
use tenon.Text.{◌<>◌, replace, begins}
use tenon.Bus.Envelope.{Envelope}
use tenon.Kv.{Bytes, Name, Cell, Entries, Facade, expired}
use tenon.Text.{str_ltb}
use tenon.Kv.Tick.{name_ltb}
use tenon.Kv.Watch.{change_envelope}

unfoldable pub escape_like : String → String
escape_like prefix = replace "_" "\\_" (replace "%" "\\%" (replace "\\" "\\\\" prefix))

module _ (like : String → String → Bool) where
  abbrev pub insert_row : Name × Cell → Entries → Entries
  insert_row row [] = row ∷ []
  insert_row row (r ∷ rows) =
      let rest = insert_row row rows in if name_ltb r.0 row.0 then r ∷ rest else row ∷ r ∷ rows

  -- `order by env, key`
  abbrev pub in_order : Entries → Entries
  in_order [] = []
  in_order (row ∷ rows) = insert_row row (in_order rows)

  abbrev pub selects : String → Name × Cell → Bool
  selects prefix row = like (escape_like prefix <> "%") row.0.1

  -- `kv_scan`
  unfoldable pub kv_scan : String → Entries → Entries
  kv_scan prefix table = in_order (retain (selects prefix) table)

  -- `kv_range`
  unfoldable pub kv_range : String → String → Entries → Entries
  kv_range env prefix table =
      in_order (retain (λ (row : Name × Cell). row.0.0 == env && selects prefix row) table)

  abbrev pub Rows : Type 0
  Rows = List (String × (Bytes × ℕ))

  -- The map's entry for a key, put in the order of the keys.
  abbrev put_key : String → Bytes × ℕ → Rows → Rows
  put_key key v [] = (key, v) ∷ []
  put_key key v ((k, w) ∷ rows) =
      let rest = put_key key v rows in
      if k == key
      then (key, v) ∷ rows
      else if str_ltb key k
      then (key, v) ∷ (k, w) ∷ rows
      else (k, w) ∷ rest

  abbrev put_rows : ℤ → Entries → Rows → Rows
  put_rows now [] out = out
  put_rows now ((n, cell) ∷ rows) out =
      let put = put_key n.1 (cell.value, cell.rev) out in
      put_rows now rows (if expired now cell.expires_at then out else put)

  -- `range`: an ephemeral cell that has not expired stands before the table's row.
  unfoldable pub range : Bool → ℤ → String → String → Facade → Rows
  range queries now env prefix f =
      put_rows now
        (retain (λ (row : Name × Cell). row.0.0 == env && begins prefix row.0.1) f.ephemeral)
        (put_rows now (if queries then kv_range env prefix f.table else []) [])

  -- `watch_snapshot`
  unfoldable pub watch_snapshot :
      (Bytes → String) → String → Bool → ℤ → String → String → ℕ → Facade → List Envelope
  watch_snapshot lossy fresh queries now env prefix since_rev f =
      map
        (λ (row : String × (Bytes × ℕ)).
          change_envelope lossy now fresh
            (record { op = "set"; name = (env, row.0); value = some row.1.0; rev = row.1.1 }))
        (retain (λ (row : String × (Bytes × ℕ)). ltb since_rev row.1.1)
          (range queries now env prefix f))

  -- `scan_all`
  unfoldable pub scan_all : Bool → String → Facade → List (Name × Bytes)
  scan_all queries prefix f =
      map (λ (row : Name × Cell). (row.0, row.1.value))
        (if queries then kv_scan prefix f.table else [])
