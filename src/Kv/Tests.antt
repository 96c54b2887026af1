-- ===== src/Kv/Tests.antt =====
-- Runs of the facade on one env.
use tenon.Prelude.{
  ◌+◌, true, false, ◌≡◌, refl, none, some, [], ◌∷◌, ok, if◌then◌else◌, ℕ, Option, zero, suc, All,
  ◌||◌, String, Result, ◌⊎◌, arith, err,
}
use tenon.Prelude.Int.{pos, negsuc, ℤ, leb_ℤ}
use tenon.Kv.{Name, Facade, sound_disk, boot, get, set, cas, Change, Bytes, Lease, find}
use tenon.Kv.Revision.{bump, restart, Ascends, issued, issued-Ascends}
use tenon.Kv.Tick.{tick}
use tenon.Kv.Swept.{among, dies, tick-swept}
use tenon.Kv.Laws.{OnePlace, is_over, value_of, set-get, cas-swaps}

abbrev name : Name
name = ("blue", "/ctl/a")

abbrev other : Name
other = ("green", "/ctl/a")

abbrev one_key : Facade
one_key = (set sound_disk (pos 10) name (49 ∷ []) true none none (boot true true [] 7)).1

issued_example :
    Ascends 7 (issued (boot true true [] 7) (bump ∷ bump ∷ restart false true [] ∷ bump ∷ []))
issued_example =
    issued-Ascends (bump ∷ bump ∷ restart false true [] ∷ bump ∷ []) true [] 7 (refl, tt)

set_example :
    ((set sound_disk (pos 10) name (50 ∷ []) false (some (pos 5)) none one_key).0
      ≡ ok (one_key.revision + 1))
    × (get
          (pos 15)
          name
          (set sound_disk (pos 10) name (50 ∷ []) false (some (pos 5)) none one_key).1
        ≡ (if is_over (pos 10) (pos 15) (some (pos 5))
            then none
            else some (50 ∷ [], one_key.revision + 1)))
    × OnePlace name (set sound_disk (pos 10) name (50 ∷ []) false (some (pos 5)) none one_key).1
    × (get
          (pos 15)
          other
          (set sound_disk (pos 10) name (50 ∷ []) false (some (pos 5)) none one_key).1
        ≡ get (pos 15) other one_key)
unfolding tenon.Prelude.Int.◌+ℤ◌
set_example =
    set-get (pos 10) (pos 15) name other (50 ∷ []) false (some (pos 5)) none one_key
      (omega arith, omega arith) refl

abbrev swapped : Result String ℕ × Facade
swapped = cas sound_disk (pos 12) name (some (49 ∷ [])) (51 ∷ []) true one_key

cas_example :
    ((value_of (get (pos 12) name one_key) ≡ some (49 ∷ []))
      × (swapped.0 ≡ ok (one_key.revision + 1))
      × (get (pos 12) name swapped.1 ≡ some (51 ∷ [], one_key.revision + 1)))
    ⊎ ((¬ (value_of (get (pos 12) name one_key) ≡ some (49 ∷ [])))
        × (swapped.0 ≡ err "cas_mismatch")
        × (swapped.1 ≡ one_key))
cas_example = cas-swaps (pos 12) name (some (49 ∷ [])) (51 ∷ []) true one_key

abbrev ctl_change : Change
ctl_change = record { op = "set"; name = name; value = some (49 ∷ []); rev = 1 }

-- A coding of numbers: the first byte is the sign.
abbrev show : ℤ → Bytes
show (pos n) = 0 ∷ n ∷ []
show (negsuc n) = 1 ∷ n ∷ []

abbrev signed : ℕ → ℕ → ℤ
signed zero n = pos n
signed (suc s) n = negsuc n

abbrev read : Bytes → Option ℤ
read (sign ∷ n ∷ []) = some (signed sign n)
read _ = none

read-show : (z : ℤ) → read (show z) ≡ some z
read-show (pos n) = refl
read-show (negsuc n) = refl

abbrev short_lived : Facade
short_lived = (set sound_disk (pos 10) other (49 ∷ []) false (some (pos 5)) none one_key).1

swept_example :
    (find (tick sound_disk true (pos 20) short_lived).ephemeral other ≡ (
      if among (dies (pos 20) short_lived) other short_lived.table
        || among (dies (pos 20) short_lived) other short_lived.ephemeral
      then none
      else find short_lived.ephemeral other))
    × (find (tick sound_disk true (pos 20) short_lived).table other ≡ (
        if among (dies (pos 20) short_lived) other short_lived.table
          || among (dies (pos 20) short_lived) other short_lived.ephemeral
        then none
        else find short_lived.table other))
    × All
        (λ (l : String × Lease). leb_ℤ l.1.expires_at (pos 20) ≡ false)
        (tick sound_disk true (pos 20) short_lived).leases
swept_example = tick-swept (pos 20) short_lived other
