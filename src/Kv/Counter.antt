-- ===== src/Kv/Counter.antt =====
-- Counters (`incr` of rs/base/src/kv.rs). `read` is the parsing of a trimmed text as an `i64`, `show`
-- is `i64::to_string` in bytes; the sum is of integers without a bound.
use tenon.Prelude.{
  ℕ, ◌+◌, String, Bool, ◌≡◌, refl, ap, ◌∙◌, Option, none, some, arith, Result, ok, err,
}
use tenon.Prelude.Int.{ℤ, pos, ◌+ℤ◌, wrap_i64}
use tenon.Kv.{Bytes, Name, Facade, Disk, sound_disk, get, set, expired}
use tenon.Kv.Laws.{set_self}

module _ (read : Bytes → Option ℤ) (show : ℤ → Bytes) where
  -- The number under a name: 0 if nothing is there, none if it does not parse.
  abbrev pub current : Option (Bytes × ℕ) → Option ℤ
  current none = some (pos 0)
  current (some (bytes, rev)) = read bytes

  abbrev answer_next : ℤ → Result String ℕ × Facade → Result String ℤ × Facade
  answer_next next (err reason, f) = (err reason, f)
  answer_next next (ok rev, f) = (ok next, f)

  abbrev pub incr_read : Disk → ℤ → Name → ℤ → Bool → Option ℤ → Facade → Result String ℤ × Facade
  incr_read disk now name delta durable none f = (err "incr on a non-integer value", f)
  incr_read disk now name delta durable (some n) f =
      answer_next (wrap_i64 (n +ℤ delta))
        (set disk now name (show (wrap_i64 (n +ℤ delta))) durable none none f)

  unfoldable pub incr : Disk → ℤ → Name → ℤ → Bool → Facade → Result String ℤ × Facade
  incr disk now name delta durable f =
      incr_read disk now name delta durable (current (get now name f)) f

  -- What an `incr` comes to, by the number that is there.
  abbrev pub Counts : ℤ → Name → ℤ → Facade → Option ℤ → Result String ℤ × Facade → Type 0
  Counts now name delta f none (answer, f') =
      (answer ≡ err "incr on a non-integer value") × (f' ≡ f)
  Counts now name delta f (some n) (answer, f') =
      (answer ≡ ok (wrap_i64 (n +ℤ delta)))
      × (current (get now name f') ≡ some (wrap_i64 (n +ℤ delta)))

  answered :
      (now : ℤ) (name : Name) (delta n : ℤ) (f : Facade) (rev : ℕ)
      → read (show (wrap_i64 (n +ℤ delta))) ≡ some (wrap_i64 (n +ℤ delta))
      → (r : Result String ℕ × Facade) → r.0 ≡ ok rev
      → get now name r.1 ≡ some (show (wrap_i64 (n +ℤ delta)), rev)
      → Counts now name delta f (some n) (answer_next (wrap_i64 (n +ℤ delta)) r)
  answered now name delta n f rev back (ok got, f') e g = (refl, ap current g ∙ back)
  answered now name delta n f rev back (err reason, f') e g = absurd (ground (arith, e))

  by_number :
      ((z : ℤ) → read (show z) ≡ some z)
      → (now : ℤ) (name : Name) (delta : ℤ) (durable : Bool) (f : Facade) (o : Option ℤ)
      → Counts now name delta f o (incr_read sound_disk now name delta durable o f)
  unfolding expired
  by_number back now name delta durable f none = (refl, refl)
  by_number back now name delta durable f (some n) =
      let (given, there, place) =
        set_self now now name (show (wrap_i64 (n +ℤ delta))) durable none none f in
      answered now name delta n f (f.revision + 1) (back (wrap_i64 (n +ℤ delta))) _ given there

  -- With a working disk, and if what is printed of a number is read back as it: an `incr` of a key
  -- whose value is no number is refused and changes nothing; any other answers the sum of the number
  -- that is there (0 for a key that reads as nothing) and `delta`, wrapped as an `i64`, and that sum
  -- is there afterwards.
  pub incr-Counts :
      ((z : ℤ) → read (show z) ≡ some z)
      → (now : ℤ) (name : Name) (delta : ℤ) (durable : Bool) (f : Facade)
      → Counts now name delta f
          (current (get now name f))
          (incr sound_disk now name delta durable f)
  unfolding incr
  incr-Counts back now name delta durable f =
      by_number back now name delta durable f (current (get now name f))
