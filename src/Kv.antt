-- ===== src/Kv.antt =====
-- The kv facade (rs/base/src/kv.rs) over the kv table (rs/storage/src/kv.rs): ephemeral cells in
-- memory, durable ones in the table, one counter of revisions and its high-water mark on disk. Maps
-- and the table are lists of entries with distinct keys. Each method is one step; `now` is the
-- clock, and `Disk` tells which statements of the store succeed and how a
-- failure reads.
pub mod Revision
pub mod Cells
pub mod Laws
pub mod Expiry
pub mod Counter
pub mod Watch
pub mod Tick
pub mod Range
pub mod Swept
pub mod Tests
use tenon.Prelude.{
  ℕ, zero, suc, ◌+◌, max, String, Bool, true, false, not, ◌&&◌, ◌||◌, Option, none, some, List, [],
  ◌∷◌, ◌++◌, ◌==◌, ℕ_eq, String_eq, retain, leb, ltb, Result, ok, err, if◌then◌else◌,
}
use tenon.Prelude.Int.{ℤ, pos, ◌+ℤ◌, leb_ℤ, max_ℤ, wrap_i64}
use tenon.Text.{◌<>◌}
use tenon.Decimal.{decimal}

abbrev pub Bytes : Type 0
Bytes = List ℕ

-- An env and a key in it.
abbrev pub Name : Type 0
Name = String × String

abbrev pub same_name : Name → Name → Bool
same_name (env, key) (env', key') = env == env' && key == key'

pub record Cell : Type 0 where
  pub value : Bytes
  pub rev : ℕ
  pub expires_at : Option ℤ
  pub lease_id : Option String

abbrev pub Entries : Type 0
Entries = List (Name × Cell)

unfoldable pub find : Entries → Name → Option Cell
find [] name = none
find ((n, cell) ∷ entries) name = if same_name n name then some cell else find entries name

unfoldable pub remove : Entries → Name → Entries
remove [] name = []
remove ((n, cell) ∷ entries) name =
    let rest = remove entries name in if same_name n name then rest else (n, cell) ∷ rest

unfoldable pub insert : Entries → Name → Cell → Entries
insert entries name cell = (name, cell) ∷ remove entries name

pub record Lease : Type 0 where
  pub ttl_ms : ℤ
  pub expires_at : ℤ
  pub env : String

pub record Change : Type 0 where
  pub op : String
  pub name : Name
  pub value : Option Bytes
  pub rev : ℕ

-- `table` and `hwm` are on disk; `fired` are the changes given to the hub.
pub record Facade : Type 0 where
  pub table : Entries
  pub hwm : ℕ
  pub revision : ℕ
  pub reserved : ℕ
  pub ephemeral : Entries
  pub leases : List (String × Lease)
  pub lease_seq : ℕ
  pub fired : List Change

pub record Disk : Type 0 where
  pub raises : Bool
  pub writes : Bool
  pub deletes : Bool
  pub failure : String

abbrev pub sound_disk : Disk
sound_disk = record { raises = true; writes = true; deletes = true; failure = "" }

abbrev pub rev_block : ℕ
rev_block = 256

-- `kv_max_rev`
abbrev pub max_rev : Entries → ℕ
max_rev [] = 0
max_rev ((n, cell) ∷ entries) = max cell.rev (max_rev entries)

-- `KvFacade::new` on what is on disk: whether the greatest revision and the mark can be read.
unfoldable pub boot : Bool → Bool → Entries → ℕ → Facade
boot rows_read mark_read table hwm = record {
  table = table;
  hwm = hwm;
  revision = max (if rows_read then max_rev table else 0) (if mark_read then hwm else 0);
  reserved = max (if rows_read then max_rev table else 0) (if mark_read then hwm else 0);
  ephemeral = [];
  leases = [];
  lease_seq = 0;
  fired = [];
}

-- `next_rev`: the revision is the facade's afterwards. A mark is only ever raised.
unfoldable pub next_rev : Disk → Facade → Facade
next_rev disk f =
    if ltb f.reserved (f.revision + 1)
    then record f {
      revision = f.revision + 1;
      reserved = max f.reserved (f.revision + 1 + rev_block);
      hwm = if disk.raises then max f.hwm (f.revision + 1 + rev_block) else f.hwm;
    }
    else record f { revision = f.revision + 1 }

unfoldable pub expired : ℤ → Option ℤ → Bool
expired now none = false
expired now (some at) = leb_ℤ at now

abbrev pub unless_expired : ℤ → Option Cell → Option (Bytes × ℕ)
unless_expired now none = none
unless_expired now (some cell) =
    if expired now cell.expires_at then none else some (cell.value, cell.rev)

-- An ephemeral cell hides the row of the table, also when it has expired.
abbrev pub shadow : Option Cell → Option Cell → Option Cell
shadow none row = row
shadow (some cell) row = some cell

unfoldable pub get : ℤ → Name → Facade → Option (Bytes × ℕ)
get now name f = unless_expired now (shadow (find f.ephemeral name) (find f.table name))

-- `write`: whether it succeeded, and the facade.
unfoldable pub write : Disk → Name → Bool → Cell → Facade → Bool × Facade
write disk name durable cell f =
    if durable
    then (
      disk.writes,
      record f {
        ephemeral = remove f.ephemeral name;
        table = if disk.writes then insert f.table name cell else f.table;
      },
    )
    else (
      true,
      record f {
        table = if disk.deletes then remove f.table name else f.table;
        ephemeral = insert f.ephemeral name cell;
      },
    )

abbrev pub deadline : ℤ → Option ℤ → Option ℤ
deadline now none = none
deadline now (some ms) = some (wrap_i64 (now +ℤ max_ℤ ms (pos 0)))

abbrev fire : Change → Facade → Facade
fire change f = record f { fired = f.fired ++ change ∷ [] }

-- What follows the write in `set`.
abbrev pub after_write : String → Name → Bytes → ℕ → Bool × Facade → Result String ℕ × Facade
after_write failure name value rev (false, f) = (err failure, f)
after_write failure name value rev (true, f) =
    (ok rev, fire (record { op = "set"; name = name; value = some value; rev = rev }) f)

unfoldable pub set :
    Disk → ℤ → Name → Bytes → Bool → Option ℤ → Option String → Facade → Result String ℕ × Facade
set disk now name value durable ttl_ms lease_id f =
    let f' = next_rev disk f in
    after_write disk.failure name value f'.revision (
      write disk name durable
        (record {
          value = value;
          rev = f'.revision;
          expires_at = deadline now ttl_ms;
          lease_id = lease_id;
        })
        f')

abbrev pub is_there : Option Cell → Bool
is_there none = false
is_there (some cell) = true

abbrev pub fire_del : Name → Facade → Facade
fire_del name f = fire (record { op = "del"; name = name; value = none; rev = f.revision }) f

unfoldable pub del : Disk → Name → Facade → Bool × Facade
del disk name f =
    let gone = is_there (find f.ephemeral name) || disk.deletes && is_there (find f.table name) in
    let f' = record f {
      ephemeral = remove f.ephemeral name;
      table = if disk.deletes then remove f.table name else f.table;
    } in
    let fired_too = fire_del name (next_rev disk f') in (gone, if gone then fired_too else f')

abbrev pub bytes_eq : Bytes → Bytes → Bool
bytes_eq [] [] = true
bytes_eq (x ∷ xs) (y ∷ ys) = x == y && bytes_eq xs ys
bytes_eq _ _ = false

-- `current == expect`
abbrev pub as_expected : Option (Bytes × ℕ) → Option Bytes → Bool
as_expected none none = true
as_expected (some (bytes, rev)) (some want) = bytes_eq bytes want
as_expected _ _ = false

unfoldable pub cas :
    Disk → ℤ → Name → Option Bytes → Bytes → Bool → Facade → Result String ℕ × Facade
cas disk now name expect value durable f =
    if as_expected (get now name f) expect
    then set disk now name value durable none none f
    else (err "cas_mismatch", f)

unfoldable pub lease : ℕ → ℤ → ℤ → String → Facade → String × Facade
lease pid now ttl_ms env f =
    let id = "L" <> decimal pid <> "-" <> decimal f.lease_seq in
    (
      id,
      record f {
        lease_seq = f.lease_seq + 1;
        leases =
            (
              id,
              record {
                ttl_ms = max_ℤ ttl_ms (pos 0);
                expires_at = wrap_i64 (now +ℤ max_ℤ ttl_ms (pos 0));
                env = env;
              },
            )
            ∷ f.leases;
      },
    )
