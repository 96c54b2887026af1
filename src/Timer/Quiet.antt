-- ===== src/Timer/Quiet.antt =====
-- What one turn of the wheel of rs/base/src/timer.rs leaves in the table: no timer that is due.
use tenon.Prelude.{
  ℕ, String, Bool, true, false, ◌&&◌, ◌||◌, ◌≡◌, ◌⊎◌, inl, inr, refl, sym, ap, ◌∙◌, subst, Option,
  none, some, List, [], ◌∷◌, map, retain, any, arith, if_split, if_both, Bool-cases, Option-cases,
  All,
}
use tenon.Prelude.Int.{ℤ, ltb_ℤ, min_ℤ}
use tenon.Json.{Value, object}
use tenon.Kv.{Bytes, Name, Cell, Entries, sound_disk, same_name, find}
use tenon.Text.{◌<>◌}
use tenon.Kv.Cells.{
  same_name_refl, same_name-eq, find-remove_same, find-remove_other, find-insert_same,
  find-insert_other,
}
use tenon.Kv.Laws.{set-table}
use tenon.Kv.Swept.{del_stores}
use tenon.Kv.Range.{scan_all, kv_scan, in_order, insert_row, selects, escape_like}
use tenon.Timer.{
  Timer, Service, timers_prefix, record_of, name_of, del_timer, max_sleep_ms, wrap_add,
}
use tenon.Timer.Wheel.{
  timer_of, timers_of, load, fire, settle, repeats, next_time, reschedule, is_due, after_fire, turn,
  dispatch,
}
use tenon.Timer.NextTime.{ReadsBack, InRange, goes_on}

module _ (encode : Value → Bytes) (decode : Bytes → Option Value) where
  abbrev NotDue : ℤ → Option Timer → Type 0
  NotDue at none = Unit
  NotDue at (some t) = is_due encode decode at t ≡ false

  -- The row holds no timer that is due at `at`.
  abbrev pub IsQuiet : ℤ → Option Cell → Type 0
  IsQuiet at none = Unit
  IsQuiet at (some cell) = NotDue at (timer_of encode decode cell.value)

  from_each :
      (at : ℤ) (o : Option Timer)
      → ((t : Timer) → o ≡ some t → is_due encode decode at t ≡ false)
      → NotDue at o
  from_each at none f = tt
  from_each at (some t) f = f t refl

  settle_same :
      ReadsBack encode decode
      → (at : ℤ) (t : Timer) (s : Service) → InRange encode decode at t
      → IsQuiet at (find (settle encode decode sound_disk at t s).kv.table (name_of t))
  unfolding del_timer
  settle_same back at t s fits =
      let fields = record_of (record t { fire_at = next_time encode decode at t.every_ms }) in
      let (cell, holds, table) = set-table at (name_of t) (encode (object fields)) s.kv in
      let (memory, rows, leases) = del_stores (name_of t) s.kv in
      if_split (λ (s' : Service). IsQuiet at (find s'.kv.table (name_of t)))
        (repeats encode decode t.every_ms)
        (reschedule encode decode sound_disk at t (next_time encode decode at t.every_ms) s)
        (del_timer encode decode sound_disk t.env t.id s).1
        (λ again.
          subst (IsQuiet at)
            (sym
              (ap (λ es. find es (name_of t)) table ∙ find-insert_same s.kv.table (name_of t) cell))
            (from_each at _ (λ t' e.
              goes_on encode decode back at t t' again fits
                (ap (timer_of encode decode) (sym holds) ∙ e))))
        (λ once.
          subst (IsQuiet at)
            (sym (ap (λ es. find es (name_of t)) rows ∙ find-remove_same s.kv.table (name_of t)))
            tt)

  settle_other :
      (at : ℤ) (t : Timer) (s : Service) (name : Name)
      → same_name (name_of t) name ≡ false
      → find (settle encode decode sound_disk at t s).kv.table name ≡ find s.kv.table name
  unfolding del_timer
  settle_other at t s name apart =
      let fields = record_of (record t { fire_at = next_time encode decode at t.every_ms }) in
      let (cell, holds, table) = set-table at (name_of t) (encode (object fields)) s.kv in
      let (memory, rows, leases) = del_stores (name_of t) s.kv in
      if_both (λ (s' : Service). find s'.kv.table name ≡ find s.kv.table name)
        (repeats encode decode t.every_ms)
        (reschedule encode decode sound_disk at t (next_time encode decode at t.every_ms) s)
        (del_timer encode decode sound_disk t.env t.id s).1
        (ap (λ es. find es name) table ∙ find-insert_other s.kv.table (name_of t) name cell apart)
        (ap (λ es. find es name) rows ∙ find-remove_other s.kv.table (name_of t) name apart)

  abbrev due_there : ℤ → Name → Timer → Bool
  due_there at name t = is_due encode decode at t && same_name (name_of t) name

  module _ (back : ReadsBack encode decode) (clock : ℕ → ℤ) (fresh : ℕ → String) (at : ℤ) where
    settled :
        (t : Timer) (ts : List Timer) (s : Service) (name : Name)
        → InRange encode decode at t
        → (IsQuiet at (find s.kv.table name)) ⊎ (any (due_there at name) (t ∷ ts) ≡ true)
        → (IsQuiet at (find (settle encode decode sound_disk at t s).kv.table name))
          ⊎ (any (due_there at name) ts ≡ true)
    settled t ts s name fits h = elim (Bool-cases (same_name (name_of t) name)) [
      | inl e ↦ inl (
          subst (λ n. IsQuiet at (find (settle encode decode sound_disk at t s).kv.table n))
            (same_name-eq (name_of t) name e) (settle_same back at t s fits))
      | inr apart ↦ kept apart h
    ]
      where
        kept :
            same_name (name_of t) name ≡ false
            → (IsQuiet at (find s.kv.table name)) ⊎ (any (due_there at name) (t ∷ ts) ≡ true)
            → (IsQuiet at (find (settle encode decode sound_disk at t s).kv.table name))
              ⊎ (any (due_there at name) ts ≡ true)
        kept apart (inl quiet) =
            inl (subst (IsQuiet at) (sym (settle_other at t s name apart)) quiet)
        kept apart (inr further) = inr (ground (arith, further, apart))

    passed :
        (t : Timer) (ts : List Timer) (name : Name) {Q : Type 0}
        → ltb_ℤ at t.fire_at ≡ true
        → Q ⊎ (any (due_there at name) (t ∷ ts) ≡ true)
        → Q ⊎ (any (due_there at name) ts ≡ true)
    passed t ts name early (inl quiet) = inl quiet
    passed t ts name early (inr further) = inr (ground (arith, further, early))

    turn_ends :
        (ts : List Timer) (next : ℤ) (s : Service) (name : Name)
        → All (InRange encode decode at) ts
        → (IsQuiet at (find s.kv.table name)) ⊎ (any (due_there at name) ts ≡ true)
        → IsQuiet at (find (turn encode decode sound_disk clock fresh at ts next s).1.kv.table name)
    turn_ends [] next s name fits (inl quiet) = quiet
    turn_ends [] next s name fits (inr further) = absurd (ground (arith, further))
    turn_ends (t ∷ ts) next s name fits h =
        let begun = fire encode decode clock fresh t s in
        if_split (λ (r : ℤ × Service). IsQuiet at (find r.1.kv.table name)) (ltb_ℤ at t.fire_at)
          (turn encode decode sound_disk clock fresh at ts (min_ℤ next t.fire_at) s)
          (turn encode decode sound_disk clock fresh at ts (after_fire encode decode at t next)
            (settle encode decode sound_disk at t begun))
          (λ early. turn_ends ts (min_ℤ next t.fire_at) s name fits.1 (passed t ts name early h))
          (λ due.
            turn_ends ts (after_fire encode decode at t next)
              (settle encode decode sound_disk at t begun) name fits.1
              (settled t ts begun name fits.0 h))

  abbrev tests : (Timer → Bool) → Option Timer → Bool
  tests q none = false
  tests q (some t) = q t

  abbrev row_tests : (Timer → Bool) → Name × Cell → Bool
  row_tests q row = tests q (timer_of encode decode row.1.value)

  any_timers :
      (q : Timer → Bool) (rows : Entries)
      → any q (timers_of encode decode (map (λ (row : Name × Cell). (row.0, row.1.value)) rows))
        ≡ any (row_tests q) rows
  any_timers q [] = refl
  any_timers q ((n, cell) ∷ rows) = elim (Option-cases (timer_of encode decode cell.value)) [
    | inl gone ↦ ground (arith, any_timers q rows, gone)
    | inr found ↦ ground (arith, any_timers q rows, found.1)
  ]

  module _ (like : String → String → Bool) where
    any_insert :
        (g : Name × Cell → Bool) (row : Name × Cell) (rows : Entries)
        → any g (insert_row like row rows) ≡ (g row || any g rows)
    any_insert g row [] = refl
    any_insert g row (r ∷ rows) = ground (arith, any_insert g row rows)

    any_order : (g : Name × Cell → Bool) (rows : Entries) → any g (in_order like rows) ≡ any g rows
    any_order g [] = refl
    any_order g (row ∷ rows) =
        any_insert g row (in_order like rows) ∙ ap (λ b. g row || b) (any_order g rows)

    any_found :
        (q : Timer → Bool) (es : Entries) (name : Name) (cell : Cell)
        → find es name ≡ some cell
        → selects like timers_prefix (name, cell) ≡ true
        → row_tests q (name, cell) ≡ true
        → any (row_tests q) (retain (selects like timers_prefix) es) ≡ true
    unfolding find
    any_found q [] name cell there sel is = absurd (ground (arith, there))
    any_found q ((n, c) ∷ es) name cell there sel is = elim (Bool-cases (same_name n name)) [
      | inl e ↦
          let here =
            subst (λ m. selects like timers_prefix (m, c) ≡ true) (sym (same_name-eq n name e))
              sel in
          ground (arith, here, e, there, is)
      | inr e ↦ ground (arith, e, there, any_found q es name cell)
    ]

    -- Every record of a timer stands under its timer's own name.
    abbrev pub OwnNames : Entries → Type 0
    OwnNames es =
        (name : Name) (cell : Cell) (t : Timer)
        → find es name ≡ some cell
        → timer_of encode decode cell.value ≡ some t
        → name_of t ≡ name

    begins_so :
        (at : ℤ) (s : Service) (name : Name)
        → OwnNames s.kv.table
        → like (escape_like timers_prefix <> "%") name.1 ≡ true
        → (IsQuiet at (find s.kv.table name))
          ⊎ (any (due_there at name) (load encode decode like true s) ≡ true)
    unfolding load scan_all kv_scan
    begins_so at s name own sel = by_row (find s.kv.table name) refl
      where
        by_timer :
            (cell : Cell)
            → find s.kv.table name ≡ some cell
            → (t : Timer) → timer_of encode decode cell.value ≡ some t
            → (IsQuiet at (some cell))
              ⊎ (any (due_there at name) (
                    timers_of encode decode (
                      map
                        (λ (row : Name × Cell). (row.0, row.1.value))
                        (in_order like (retain (selects like timers_prefix) s.kv.table))))
                  ≡ true)
        by_timer cell there t e = elim (Bool-cases (is_due encode decode at t)) [
          | inl due ↦
              let q : Timer → Bool = due_there at name in
              let mine =
                subst (λ n. same_name (name_of t) n ≡ true) (own name cell t there e)
                  (same_name_refl (name_of t)) in
              let listed =
                any_found q s.kv.table name cell there sel (ground (arith, e, due, mine)) in
              inr (
                any_timers q (in_order like (retain (selects like timers_prefix) s.kv.table))
                ∙ any_order (row_tests q) (retain (selects like timers_prefix) s.kv.table)
                ∙ listed)
          | inr early ↦ inl (from_each at _ (λ t' e'. ground (arith, e, e', early)))
        ]

        by_row :
            (o : Option Cell)
            → find s.kv.table name ≡ o
            → (IsQuiet at o)
              ⊎ (any (due_there at name) (
                    timers_of encode decode (
                      map
                        (λ (row : Name × Cell). (row.0, row.1.value))
                        (in_order like (retain (selects like timers_prefix) s.kv.table))))
                  ≡ true)
        by_row none there = inl tt
        by_row (some cell) there = elim (Option-cases (timer_of encode decode cell.value)) [
          | inl gone ↦ inl (from_each at _ (λ t e. absurd (ground (arith, e, gone))))
          | inr (t, e) ↦ by_timer cell there t e
        ]

    -- If all statements of the store succeed, a timer's record that is read back has the time that
    -- was written, every record of a timer stands under its timer's own name and no next time
    -- leaves the range of `i64`, then no record under a name that the wheel looks at is due when it
    -- has turned.
    pub dispatch-IsQuiet :
        ReadsBack encode decode
        → (clock : ℕ → ℤ) (fresh : ℕ → String) (at : ℤ) (s : Service) → OwnNames s.kv.table
        → All (InRange encode decode at) (load encode decode like true s)
        → (name : Name) → like (escape_like timers_prefix <> "%") name.1 ≡ true
        → IsQuiet at
            (find (dispatch encode decode like true sound_disk clock fresh at s).1.kv.table name)
    unfolding dispatch
    dispatch-IsQuiet back clock fresh at s own fits name sel =
        turn_ends back clock fresh at (load encode decode like true s) (wrap_add at max_sleep_ms) s
          name fits (begins_so at s name own sel)
