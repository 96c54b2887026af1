-- ===== src/Kv/Expiry.antt =====
-- New deadlines for keys and leases (`expire` and `keep_alive` of rs/base/src/kv.rs).
use tenon.Prelude.{
  ℕ, ◌+◌, String, Bool, true, false, ◌≡◌, refl, ap, Option, none, some, List, [], ◌∷◌, ◌==◌,
  String_eq, Result, ok, err, if◌then◌else◌,
}
use tenon.Prelude.Int.{ℤ, pos, ◌+ℤ◌, max_ℤ, wrap_i64}
use tenon.Kv.{
  Bytes, Name, Cell, Lease, Facade, Disk, sound_disk, find, next_rev, get, write, unless_expired,
  expired, is_there, lease,
}
use tenon.Kv.Laws.{OnePlace, cells-next_rev, write-same}

-- What follows the write in `expire`.
abbrev after_expire : String → ℕ → Bool × Facade → Result String ℕ × Facade
after_expire failure rev (false, f) = (err failure, f)
after_expire failure rev (true, f) = (ok rev, f)

abbrev pub renewed : ℤ → ℤ → Bytes → ℕ → Cell
renewed now ttl_ms value rev = record {
  value = value;
  rev = rev;
  expires_at = some (wrap_i64 (now +ℤ max_ℤ ttl_ms (pos 0)));
  lease_id = none;
}

-- The value that was read is written anew, to the table if there is a row there.
abbrev pub expire_read :
    Disk → ℤ → Name → ℤ → Option (Bytes × ℕ) → Facade → Result String ℕ × Facade
expire_read disk now name ttl_ms none f = (err "unknown key", f)
expire_read disk now name ttl_ms (some (value, old)) f =
    let f' = next_rev disk f in
    after_expire disk.failure f'.revision
      (write disk name (is_there (find f.table name)) (renewed now ttl_ms value f'.revision) f')

unfoldable pub expire : Disk → ℤ → Name → ℤ → Facade → Result String ℕ × Facade
expire disk now name ttl_ms f = expire_read disk now name ttl_ms (get now name f) f

abbrev pub find_lease : List (String × Lease) → String → Option Lease
find_lease [] id = none
find_lease ((i, l) ∷ leases) id = if i == id then some l else find_lease leases id

abbrev put_lease : List (String × Lease) → String → Lease → List (String × Lease)
put_lease [] id new = []
put_lease ((i, l) ∷ leases) id new =
    let rest = put_lease leases id new in if i == id then (i, new) ∷ leases else (i, l) ∷ rest

abbrev kept : ℤ → String → Option Lease → Facade → Result String ℤ × Facade
kept now id none f = (err "unknown lease", f)
kept now id (some l) f = (
  ok (wrap_i64 (now +ℤ l.ttl_ms)),
  record f {
    leases = put_lease f.leases id (record l { expires_at = wrap_i64 (now +ℤ l.ttl_ms) });
  },
)

unfoldable pub keep_alive : ℤ → String → Facade → Result String ℤ × Facade
keep_alive now id f = kept now id (find_lease f.leases id) f

-- What an `expire` comes to, by what a read gives.
abbrev pub Expires :
    ℤ → ℤ → Name → ℤ → Facade → Option (Bytes × ℕ) → Result String ℕ × Facade → Type 0
Expires now later name ttl_ms f none (answer, f') = (answer ≡ err "unknown key") × (f' ≡ f)
Expires now later name ttl_ms f (some (value, old)) (answer, f') =
    (answer ≡ ok (f.revision + 1))
    × (get later name f' ≡ (
        if expired later (some (wrap_i64 (now +ℤ max_ℤ ttl_ms (pos 0))))
        then none
        else some (value, f.revision + 1)))
    × OnePlace name f'

written :
    (now later : ℤ) (name : Name) (ttl_ms : ℤ) (value : Bytes) (old : ℕ) (durable : Bool)
    (f : Facade)
    → Expires now later name ttl_ms f (some (value, old)) (
        after_expire "" (next_rev sound_disk f).revision (
          write sound_disk name durable
            (renewed now ttl_ms value (next_rev sound_disk f).revision)
            (next_rev sound_disk f)))
unfolding write get
written now later name ttl_ms value old true f =
    let rev = (cells-next_rev sound_disk f).2 in
    let cell = renewed now ttl_ms value (next_rev sound_disk f).revision in
    let (there, place) = write-same name true cell (next_rev sound_disk f) in
    (ap ok rev, rw (← rev) (ap (unless_expired later) there), place)
written now later name ttl_ms value old false f =
    let rev = (cells-next_rev sound_disk f).2 in
    let cell = renewed now ttl_ms value (next_rev sound_disk f).revision in
    let (there, place) = write-same name false cell (next_rev sound_disk f) in
    (ap ok rev, rw (← rev) (ap (unless_expired later) there), place)

by_read :
    (now later : ℤ) (name : Name) (ttl_ms : ℤ) (f : Facade) (read : Option (Bytes × ℕ))
    → Expires now later name ttl_ms f read (expire_read sound_disk now name ttl_ms read f)
by_read now later name ttl_ms f none = (refl, refl)
by_read now later name ttl_ms f (some (value, old)) =
    written now later name ttl_ms value old (is_there (find f.table name)) f

-- With a working disk, an `expire` of a key that reads as nothing is refused and changes nothing;
-- any other keeps the value, gives it the next revision and a deadline `ttl_ms` (or 0) from now, as
-- a wrapped `i64`, at which it stops to be read, and leaves the key in one place only.
pub expire-Expires :
    (now later : ℤ) (name : Name) (ttl_ms : ℤ) (f : Facade)
    → Expires now later name ttl_ms f (get now name f) (expire sound_disk now name ttl_ms f)
unfolding expire
expire-Expires now later name ttl_ms f = by_read now later name ttl_ms f (get now name f)

-- A lease that was just made can be kept alive: at any time it then ends its `ttl_ms` (or 0) after
-- that time, as a wrapped `i64`, and it is that lease, with its env, that is in the map.
pub keep_alive-lease :
    (pid : ℕ) (now later ttl_ms : ℤ) (env : String) (f : Facade)
    → let made = lease pid now ttl_ms env f in
      ((keep_alive later made.0 made.1).0 ≡ ok (wrap_i64 (later +ℤ max_ℤ ttl_ms (pos 0))))
      × (find_lease (keep_alive later made.0 made.1).1.leases made.0
          ≡ some (record {
            ttl_ms = max_ℤ ttl_ms (pos 0);
            expires_at = wrap_i64 (later +ℤ max_ℤ ttl_ms (pos 0));
            env = env;
          }))
unfolding keep_alive lease
keep_alive-lease pid now later ttl_ms env f =
    let same =
      (String_eq.beq_iff (lease pid now ttl_ms env f).0 (lease pid now ttl_ms env f).0).1 refl in
    rw same (refl, rw same (rw same refl))
