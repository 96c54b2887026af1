-- ===== src/Kv/Laws.antt =====
-- What a write is worth to the reads after it.
use tenon.Prelude.{
  ℕ, ◌+◌, String, Bool, true, false, ◌||◌, ◌≡◌, ◌⊎◌, inl, inr, refl, ap, Option, none, some, ok,
  err, arith, if_both, if◌then◌else◌, ◌∙◌, ◌↔◌, ℕ_eq, [], ◌∷◌,
}
use tenon.Prelude.Int.{ℤ, pos, ◌+ℤ◌, max_ℤ, leb_ℤ, InI64, wrap_of_InI64}
use tenon.Kv.{
  Bytes, Name, Cell, Facade, Disk, sound_disk, same_name, find, remove, next_rev, expired, shadow,
  unless_expired, get, write, deadline, set, del, as_expected, cas, is_there, fire_del, insert,
  bytes_eq,
}
use tenon.Kv.Cells.{find-remove_same, find-remove_other, find-insert_same, find-insert_other}

-- The cell that a read looks at.
abbrev pub cell_at : Facade → Name → Option Cell
cell_at f name = shadow (find f.ephemeral name) (find f.table name)

pub cells-next_rev :
    (disk : Disk) (f : Facade)
    → ((next_rev disk f).table ≡ f.table)
      × ((next_rev disk f).ephemeral ≡ f.ephemeral)
      × ((next_rev disk f).revision ≡ f.revision + 1)
unfolding next_rev
cells-next_rev disk f = ground arith

-- A key in one place only.
pub OnePlace : Name → Facade → Type 0
OnePlace name f = (find f.ephemeral name ≡ none) ⊎ (find f.table name ≡ none)

pub write-same :
    (name : Name) (durable : Bool) (cell : Cell) (f : Facade)
    → (cell_at (write sound_disk name durable cell f).1 name ≡ some cell)
      × OnePlace name (write sound_disk name durable cell f).1
unfolding write OnePlace
write-same name true cell f =
    let gone = find-remove_same f.ephemeral name in
    let there = find-insert_same f.table name cell in (rw (gone, there) refl, inl gone)
write-same name false cell f =
    let gone = find-remove_same f.table name in
    let there = find-insert_same f.ephemeral name cell in (rw there refl, inr gone)

write-other :
    (name other : Name) (durable : Bool) (cell : Cell) (f : Facade)
    → same_name name other ≡ false
    → (find (write sound_disk name durable cell f).1.ephemeral other ≡ find f.ephemeral other)
      × (find (write sound_disk name durable cell f).1.table other ≡ find f.table other)
unfolding write
write-other name other true cell f apart = (
  find-remove_other f.ephemeral name other apart,
  find-insert_other f.table name other cell apart,
)
write-other name other false cell f apart = (
  find-insert_other f.ephemeral name other cell apart,
  find-remove_other f.table name other apart,
)

abbrev new_cell : ℤ → Bytes → Option ℤ → Option String → ℕ → Cell
new_cell now value ttl_ms lease_id rev = record {
  value = value;
  rev = rev;
  expires_at = deadline now ttl_ms;
  lease_id = lease_id;
}

-- What a `set` leaves is what its write leaves.
set-write :
    (now : ℤ) (name : Name) (value : Bytes) (durable : Bool) (ttl_ms : Option ℤ)
    → (lease_id : Option String) (f : Facade) (r : ℕ) → (next_rev sound_disk f).revision ≡ r
    → ((set sound_disk now name value durable ttl_ms lease_id f).0 ≡ ok r)
      × ((set sound_disk now name value durable ttl_ms lease_id f).1.ephemeral
          ≡ (write sound_disk name durable
              (new_cell now value ttl_ms lease_id r)
              (next_rev sound_disk f)).1.ephemeral)
      × ((set sound_disk now name value durable ttl_ms lease_id f).1.table
          ≡ (write sound_disk name durable
              (new_cell now value ttl_ms lease_id r)
              (next_rev sound_disk f)).1.table)
unfolding set write
set-write now name value true ttl_ms lease_id f r e = rw (← e) (refl, refl, refl)
set-write now name value false ttl_ms lease_id f r e = rw (← e) (refl, refl, refl)

-- The table after a durable `set`.
pub set-table :
    (now : ℤ) (name : Name) (value : Bytes) (f : Facade)
    → (cell : Cell) × (cell.value ≡ value)
      × ((set sound_disk now name value true none none f).1.table ≡ insert f.table name cell)
unfolding write
set-table now name value f =
    let cell = new_cell now value none none (next_rev sound_disk f).revision in
    let (given, memory, table) =
      set-write now name value true none none f (next_rev sound_disk f).revision refl in
    (cell, refl, table ∙ ap (λ es. insert es name cell) (cells-next_rev sound_disk f).0)

pub set_self :
    (now later : ℤ) (name : Name) (value : Bytes) (durable : Bool) (ttl_ms : Option ℤ)
    → (lease_id : Option String) (f : Facade)
    → ((set sound_disk now name value durable ttl_ms lease_id f).0 ≡ ok (f.revision + 1))
      × (get later name (set sound_disk now name value durable ttl_ms lease_id f).1
          ≡ (if expired later (deadline now ttl_ms) then none else some (value, f.revision + 1)))
      × OnePlace name (set sound_disk now name value durable ttl_ms lease_id f).1
unfolding get OnePlace
set_self now later name value durable ttl_ms lease_id f =
    let rev = (cells-next_rev sound_disk f).2 in
    let (answer, e, t) = set-write now name value durable ttl_ms lease_id f (f.revision + 1) rev in
    let cell = new_cell now value ttl_ms lease_id (f.revision + 1) in
    let (there, place) = write-same name durable cell (next_rev sound_disk f) in
    (answer, rw (e, t) (ap (unless_expired later) there), rw (e, t) place)

-- The time at which a `ttl` ends, as an integer without bounds, is one that `i64` holds.
abbrev pub Fits : ℤ → Option ℤ → Type 0
Fits now none = Unit
Fits now (some ms) = InI64 (now +ℤ max_ℤ ms (pos 0))

-- The `ttl`, less than 0 counting as 0, is set and over.
abbrev pub is_over : ℤ → ℤ → Option ℤ → Bool
is_over now later none = false
is_over now later (some ms) = leb_ℤ (now +ℤ max_ℤ ms (pos 0)) later

expired-deadline :
    (now later : ℤ) (ttl_ms : Option ℤ)
    → Fits now ttl_ms
    → expired later (deadline now ttl_ms) ≡ is_over now later ttl_ms
unfolding expired
expired-deadline now later none fits = refl
expired-deadline now later (some ms) fits =
    ap (λ t. leb_ℤ t later) (wrap_of_InI64 (now +ℤ max_ℤ ms (pos 0)) fits)

-- If now and the `ttl` add up to a time that `i64` holds: a `set` with a working disk gives out the
-- next revision; a later read gives the value with that revision until the `ttl` (or 0) has passed,
-- and nothing from then on; the key is then in one place only; and a read of any other name gives
-- what it gave before.
pub set-get :
    (now later : ℤ) (name other : Name) (value : Bytes) (durable : Bool) (ttl_ms : Option ℤ)
    → (lease_id : Option String) (f : Facade) → Fits now ttl_ms
    → same_name name other ≡ false
    → ((set sound_disk now name value durable ttl_ms lease_id f).0 ≡ ok (f.revision + 1))
      × (get later name (set sound_disk now name value durable ttl_ms lease_id f).1
          ≡ (if is_over now later ttl_ms then none else some (value, f.revision + 1)))
      × OnePlace name (set sound_disk now name value durable ttl_ms lease_id f).1
      × (get later other (set sound_disk now name value durable ttl_ms lease_id f).1
          ≡ get later other f)
unfolding get
set-get now later name other value durable ttl_ms lease_id f fits apart =
    let (table, ephemeral, rev) = cells-next_rev sound_disk f in
    let (answer, e, t) = set-write now name value durable ttl_ms lease_id f (f.revision + 1) rev in
    let cell = new_cell now value ttl_ms lease_id (f.revision + 1) in
    let (eo, to) = write-other name other durable cell (next_rev sound_disk f) apart in
    let (given, read, place) = set_self now later name value durable ttl_ms lease_id f in
    let at_end = expired-deadline now later ttl_ms fits in
    (given, rw (← at_end) read, place, rw (e, t, eo, to, ephemeral, table) refl)

removed : Name → Facade → Facade
removed name f = record f { ephemeral = remove f.ephemeral name; table = remove f.table name }

removed-get :
    (later : ℤ) (name other : Name) (f g : Facade)
    → same_name name other ≡ false
    → g.ephemeral ≡ remove f.ephemeral name
    → g.table ≡ remove f.table name
    → (get later name g ≡ none) × (get later other g ≡ get later other f)
unfolding get
removed-get later name other f g apart e t =
    let none_left = find-remove_same f.ephemeral name in
    let no_row = find-remove_same f.table name in
    let eo = find-remove_other f.ephemeral name other apart in
    let to = find-remove_other f.table name other apart in
    (rw (e, t, none_left, no_row) refl, rw (e, t, eo, to) refl)

-- A `del` with a working disk leaves nothing to read under the name, and every other name as it
-- was.
pub del-get :
    (later : ℤ) (name other : Name) (f : Facade)
    → same_name name other ≡ false
    → (get later name (del sound_disk name f).1 ≡ none)
      × (get later other (del sound_disk name f).1 ≡ get later other f)
unfolding del removed
del-get later name other f apart =
    let f' = removed name f in
    if_both (λ (g : Facade). (get later name g ≡ none) × (get later other g ≡ get later other f))
      (is_there (find f.ephemeral name) || is_there (find f.table name))
      (fire_del name (next_rev sound_disk f')) f'
      (removed-get later name other f _ apart (cells-next_rev sound_disk f').1
        (cells-next_rev sound_disk f').0)
      (removed-get later name other f _ apart refl refl)

-- The value of what a read gives.
abbrev pub value_of : Option (Bytes × ℕ) → Option Bytes
value_of none = none
value_of (some (bytes, rev)) = some bytes

-- The code's comparison, against equality.
abbrev Reflects : {A : Type 0} → A → A → Bool → Type 0
Reflects a b true = a ≡ b
Reflects a b false = ¬ (a ≡ b)

bytes_eq_iff : (a b : Bytes) → (bytes_eq a b ≡ true) ↔ (a ≡ b)
bytes_eq_iff [] [] = ((λ h. refl), λ h. refl)
bytes_eq_iff [] (y ∷ ys) = ground arith
bytes_eq_iff (x ∷ xs) [] = ground arith
bytes_eq_iff (x ∷ xs) (y ∷ ys) = ground (arith, ℕ_eq.beq_iff x y, bytes_eq_iff xs ys)

as_expected_iff :
    (read : Option (Bytes × ℕ)) (expect : Option Bytes)
    → (as_expected read expect ≡ true) ↔ (value_of read ≡ expect)
as_expected_iff none none = ((λ h. refl), λ h. refl)
as_expected_iff none (some want) = ground arith
as_expected_iff (some (bytes, rev)) none = ground arith
as_expected_iff (some (bytes, rev)) (some want) = ground (arith, bytes_eq_iff bytes want)

reflects :
    (read expect : Option Bytes) (b : Bool) → (b ≡ true) ↔ (read ≡ expect) → Reflects read expect b
reflects read expect true iff = iff.0 refl
reflects read expect false iff = λ e. ground (arith, iff.1 e)

as_expected-Reflects :
    (read : Option (Bytes × ℕ)) (expect : Option Bytes)
    → Reflects (value_of read) expect (as_expected read expect)
as_expected-Reflects read expect =
    reflects (value_of read) expect (as_expected read expect) (as_expected_iff read expect)

-- With a working disk: if what a `cas` expects, a value or that there is none, is what a read gives,
-- then it gives out the next revision and the new value is there to read with it at that moment; if
-- it is not, it answers with a mismatch and changes nothing, not even the revision.
pub cas-swaps :
    (now : ℤ) (name : Name) (expect : Option Bytes) (value : Bytes) (durable : Bool) (f : Facade)
    → let (answer, f') = cas sound_disk now name expect value durable f in
      ((value_of (get now name f) ≡ expect)
        × (answer ≡ ok (f.revision + 1))
        × (get now name f' ≡ some (value, f.revision + 1)))
      ⊎ ((¬ (value_of (get now name f) ≡ expect)) × (answer ≡ err "cas_mismatch") × (f' ≡ f))
unfolding cas expired
cas-swaps now name expect value durable f =
    at_test (as_expected (get now name f) expect) (as_expected-Reflects (get now name f) expect)
  where
    at_test :
        (b : Bool)
        → Reflects (value_of (get now name f)) expect b
        → let (answer, f') =
            (if b
              then set sound_disk now name value durable none none f
              else (err "cas_mismatch", f)) in
          ((value_of (get now name f) ≡ expect)
            × (answer ≡ ok (f.revision + 1))
            × (get now name f' ≡ some (value, f.revision + 1)))
          ⊎ ((¬ (value_of (get now name f) ≡ expect)) × (answer ≡ err "cas_mismatch") × (f' ≡ f))
    at_test true same =
        let (given, read, place) = set_self now now name value durable none none f in
        inl (same, given, read)
    at_test false apart = inr (apart, refl, refl)
