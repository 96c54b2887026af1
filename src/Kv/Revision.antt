-- ===== src/Kv/Revision.antt =====
-- The revisions that the facade gives out, across restarts.
use tenon.Prelude.{Bool, true, ℕ, ◌+◌, ◌≤◌, ◌<◌, false, ◌≡◌, ◌⊎◌, inl, refl, List, [], ◌∷◌, arith}
use tenon.Kv.{Entries, Facade, sound_disk, boot, next_rev}

-- A revision is taken, or the process ends and another starts on the same mark and on whatever rows
-- the table has then: whether it can read their greatest revision, and whether it can read the mark.
pub data Event : Type 0 where
  bump : Event
  restart : Bool → Bool → Entries → Event

-- The revisions that a run gives out.
unfoldable pub issued : Facade → List Event → List ℕ
issued f [] = []
issued f (bump ∷ events) = (next_rev sound_disk f).revision ∷ issued (next_rev sound_disk f) events
issued f (restart rows_read mark_read table ∷ events) =
    issued (boot rows_read mark_read table f.hwm) events

-- Every restart of the run reads the mark.
abbrev pub MarkRead : List Event → Type 0
MarkRead [] = Unit
MarkRead (bump ∷ events) = MarkRead events
MarkRead (restart rows_read mark_read table ∷ events) = (mark_read ≡ true) × MarkRead events

abbrev pub Ascends : ℕ → List ℕ → Type 0
Ascends before [] = Unit
Ascends before (rev ∷ revs) = (before < rev) × Ascends rev revs

-- The counter is at the ceiling or below it, and below it only if the ceiling is on disk.
pub record Reserves (f : Facade) : Type 0 where
  pub below : f.revision ≤ f.reserved
  pub marked : (f.revision ≡ f.reserved) ⊎ (f.reserved ≤ f.hwm)

next_rev-Reserves :
    (f : Facade)
    → Reserves f
    → Reserves (next_rev sound_disk f)
      × ((next_rev sound_disk f).revision ≡ f.revision + 1)
      × ((next_rev sound_disk f).revision ≤ (next_rev sound_disk f).hwm)
unfolding next_rev
next_rev-Reserves f r = ground (arith, r.below, r.marked)

boot-Reserves :
    (rows_read mark_read : Bool) (table : Entries) (hwm : ℕ)
    → Reserves (boot rows_read mark_read table hwm)
unfolding boot
boot-Reserves rows_read mark_read table hwm = record { below = omega arith; marked = inl refl }

boot-above :
    (rows_read : Bool) (table : Entries) (hwm : ℕ) → hwm ≤ (boot rows_read true table hwm).revision
unfolding boot
boot-above rows_read table hwm = ground arith

hwm-boot :
    (rows_read mark_read : Bool) (table : Entries) (hwm last : ℕ)
    → last ≤ hwm
    → last ≤ (boot rows_read mark_read table hwm).hwm
unfolding boot
hwm-boot rows_read mark_read table hwm last le = le

issued-from :
    (events : List Event) (f : Facade) (last : ℕ)
    → MarkRead events
    → Reserves f
    → last ≤ f.revision
    → last ≤ f.hwm
    → Ascends last (issued f events)
unfolding issued
issued-from [] f last reads r le on_disk = tt
issued-from (bump ∷ events) f last reads r le on_disk =
    let (r', next, marked) = next_rev-Reserves f r in
    (
      omega (arith, next, le),
      issued-from events (next_rev sound_disk f) (next_rev sound_disk f).revision reads r'
          (omega arith) marked,
    )
issued-from (restart rows_read true table ∷ events) f last reads r le on_disk =
    let above = boot-above rows_read table f.hwm in
    issued-from events (boot rows_read true table f.hwm) last reads.1
      (boot-Reserves rows_read true table f.hwm) (omega (arith, above, on_disk))
      (hwm-boot rows_read true table f.hwm last on_disk)
issued-from (restart rows_read false table ∷ events) f last reads r le on_disk =
    ground (arith, reads.0)

-- As long as the mark can be written, and read at the start and at every restart: over any number
-- of restarts, at any moments, whatever rows are left in the table and whether or not their greatest
-- revision can be read, every revision is above all those given out before it and above the mark at
-- the start. A restart leaves gaps, never a revision twice.
pub issued-Ascends :
    (events : List Event) (rows_read : Bool) (table : Entries) (hwm : ℕ)
    → MarkRead events
    → Ascends hwm (issued (boot rows_read true table hwm) events)
issued-Ascends events rows_read table hwm reads =
    issued-from events (boot rows_read true table hwm) hwm reads
      (boot-Reserves rows_read true table hwm) (boot-above rows_read table hwm)
      (hwm-boot rows_read true table hwm hwm (omega arith))
