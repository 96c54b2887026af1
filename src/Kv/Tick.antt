-- ===== src/Kv/Tick.antt =====
-- The expiry sweep (`tick` of rs/base/src/kv.rs) with the queries that it asks the table
-- (rs/storage/src/kv.rs). `queries` tells whether the queries succeed. The names are sorted and taken
-- once each, by their characters.
use tenon.Prelude.{
  String, Bool, false, ◌&&◌, ◌||◌, not, Option, none, some, List, [], ◌∷◌, ◌++◌, ◌==◌, ℕ_eq,
  String_eq, retain, if◌then◌else◌,
}
use tenon.Prelude.Int.{ℤ, leb_ℤ}
use tenon.Text.{str_ltb}
use tenon.Kv.{Name, Cell, Entries, Lease, Facade, Disk, same_name, expired, del}

abbrev pub name_ltb : Name → Name → Bool
name_ltb (env, key) (env', key') = str_ltb env env' || env == env' && str_ltb key key'

-- A name put in its place, unless it is there.
abbrev pub insert_name : Name → List Name → List Name
insert_name n [] = n ∷ []
insert_name n (m ∷ ms) =
    let rest = insert_name n ms in
    if same_name n m then m ∷ ms else if name_ltb n m then n ∷ m ∷ ms else m ∷ rest

-- `sort` and `dedup`
abbrev pub sorted_once : List Name → List Name
sorted_once [] = []
sorted_once (n ∷ ns) = insert_name n (sorted_once ns)

abbrev pub bound_to : String → Option String → Bool
bound_to id none = false
bound_to id (some lease) = lease == id

abbrev pub names_of : (Cell → Bool) → Entries → List Name
names_of p [] = []
names_of p ((n, cell) ∷ entries) = if p cell then n ∷ names_of p entries else names_of p entries

-- `kv_expired`, `kv_by_lease`
abbrev pub kv_expired : ℤ → Entries → List Name
kv_expired at rows = names_of (λ (cell : Cell). expired at cell.expires_at) rows

abbrev pub kv_by_lease : String → Entries → List Name
kv_by_lease id rows = names_of (λ (cell : Cell). bound_to id cell.lease_id) rows

abbrev pub dead_leases : ℤ → List (String × Lease) → List String
dead_leases at [] = []
dead_leases at ((id, l) ∷ leases) =
    if leb_ℤ l.expires_at at then id ∷ dead_leases at leases else dead_leases at leases

abbrev pub asked : Bool → List Name → List Name
asked queries names = if queries then names else []

abbrev pub doomed_by : Bool → List String → Facade → List Name
doomed_by queries [] f = []
doomed_by queries (id ∷ ids) f =
    asked queries (kv_by_lease id f.table) ++ kv_by_lease id f.ephemeral ++ doomed_by queries ids f

unfoldable pub doomed : Bool → ℤ → Facade → List Name
doomed queries at f =
    asked queries (kv_expired at f.table)
    ++ kv_expired at f.ephemeral
    ++ doomed_by queries (dead_leases at f.leases) f

abbrev pub drop_leases : List String → List (String × Lease) → List (String × Lease)
drop_leases [] leases = leases
drop_leases (id ∷ ids) leases =
    drop_leases ids (retain (λ (l : String × Lease). not (id == l.0)) leases)

abbrev pub del_all : Disk → List Name → Facade → Facade
del_all disk [] f = f
del_all disk (n ∷ ns) f = del_all disk ns (del disk n f).1

unfoldable pub tick : Disk → Bool → ℤ → Facade → Facade
tick disk queries at f =
    del_all disk (sorted_once (doomed queries at f))
      (record f { leases = drop_leases (dead_leases at f.leases) f.leases })
