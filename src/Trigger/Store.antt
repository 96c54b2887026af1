-- ===== src/Trigger/Store.antt =====
-- The rules in the kv facade (`set`, `list`, `del` and `reload` of rs/base/src/trigger.rs). `encode` and
-- `decode` are `serde_json`'s text of a record and its reading, `like` is SQLite's test.
use tenon.Prelude.{
  ℕ, String, Bool, true, Option, none, some, List, [], ◌∷◌, map, Result, ok, err, if◌then◌else◌, ap,
  ◌≡◌,
}
use tenon.Prelude.Int.{ℤ, pos, ◌*ℤ◌, wrap_i64, ltb_ℤ, i64_max}
use tenon.Text.{◌<>◌}
use tenon.Json.{Value, integer}
use tenon.Kv.{Bytes, Name, Facade, Disk, set, del, sound_disk, Cell, remove}
use tenon.Kv.Swept.{del_stores}
use tenon.Kv.Range.{range, scan_all, kv_scan}
use tenon.Trigger.{Trigger}
use tenon.Trigger.Template.{get}
use tenon.Trigger.Record.{parse, set_record}

abbrev pub triggers_prefix : String
triggers_prefix = "/triggers/"

-- What the service keeps beside its budgets.
pub record Rules : Type 0 where
  pub kv : Facade
  pub seq : ℕ
  pub rules : List Trigger

module _ (encode : Value → Bytes) (decode : Bytes → Option Value)
    (like : String → String → Bool) where
  abbrev parse_some : String → Option Value → Option Trigger
  parse_some env none = none
  parse_some env (some v) = parse env v

  abbrev add_rule : Option Trigger → List Trigger → List Trigger
  add_rule none rules = rules
  add_rule (some rule) rules = rule ∷ rules

  abbrev pub rules_of : List (Name × Bytes) → List Trigger
  rules_of [] = []
  rules_of ((n, bytes) ∷ rows) = add_rule (parse_some n.0 (decode bytes)) (rules_of rows)

  unfoldable pub reload : Bool → Rules → Rules
  reload queries s = record s { rules = rules_of (scan_all like queries triggers_prefix s.kv) }

  abbrev seconds : Option Value → Option ℤ
  seconds (some (integer n)) = if ltb_ℤ i64_max n then none else some n
  seconds o = none

  abbrev in_ms : Option ℤ → Option ℤ
  in_ms none = none
  in_ms (some s) = some (wrap_i64 (s *ℤ pos 1000))

  abbrev first_of : Option Value → Option Value → Option Value
  first_of none o = o
  first_of (some v) o = some v

  -- The `ttl` of a request; the product is of `i64`, without a check.
  abbrev pub ttl_ms : Value → Option ℤ
  ttl_ms body = in_ms (seconds (first_of (get body "ttl") (get body "ttl_s")))

  abbrev after_set : Bool → String → Rules → Result String ℕ × Facade → Result String String × Rules
  after_set queries id s (ok rev, kv) = (ok id, reload queries (record s { kv = kv }))
  after_set queries id s (err reason, kv) = (err reason, record s { kv = kv })

  abbrev store_record :
      Disk
      → Bool
      → ℤ
      → String
      → Value
      → Result String (String × Value) × ℕ
      → Rules
      → Result String String × Rules
  store_record disk queries now env body (err reason, seq) s = (err reason, record s { seq = seq })
  store_record disk queries now env body (ok (id, rec), seq) s =
      after_set queries id (record s { seq = seq })
        (set disk now (env, triggers_prefix <> id) (encode rec) true (ttl_ms body) none s.kv)

  -- `set`: the id, or the refusal.
  unfoldable pub set_trigger :
      Disk → Bool → ℤ → ℕ → String → Bool → Value → Rules → Result String String × Rules
  set_trigger disk queries now pid env admin body s =
      store_record disk queries now env body (set_record env admin body now pid s.seq) s

  -- `del`: whether there was one, and the rules that are left.
  unfoldable pub del_trigger : Disk → Bool → String → String → Rules → Bool × Rules
  del_trigger disk queries env id s =
      let (gone, kv) = del disk (env, triggers_prefix <> id) s.kv in
      (gone, reload queries (record s { kv = kv }))

  abbrev add_value : Option Value → List Value → List Value
  add_value none vs = vs
  add_value (some v) vs = v ∷ vs

  abbrev values_of : List Bytes → List Value
  values_of [] = []
  values_of (b ∷ bs) = add_value (decode b) (values_of bs)

  -- `list`
  unfoldable pub list_triggers : Bool → ℤ → String → Rules → List Value
  list_triggers queries now env s = values_of (
      map (λ (row : String × (Bytes × ℕ)). row.1.0)
        (range like queries now env triggers_prefix s.kv))

  -- With a working disk, the rules after a `del` are those of the rows under the other names.
  pub del_trigger-rules :
      (env id : String) (s : Rules)
      → (del_trigger sound_disk true env id s).1.rules
        ≡ rules_of (
            map
              (λ (row : Name × Cell). (row.0, row.1.value))
              (kv_scan like triggers_prefix (remove s.kv.table (env, triggers_prefix <> id))))
  unfolding del_trigger reload scan_all
  del_trigger-rules env id s =
      let (memory, rows, leases) = del_stores (env, triggers_prefix <> id) s.kv in
      ap
        (λ table.
          rules_of (
            map (λ (row : Name × Cell). (row.0, row.1.value)) (kv_scan like triggers_prefix table)))
        rows
