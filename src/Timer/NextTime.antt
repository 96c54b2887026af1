-- ===== src/Timer/NextTime.antt =====
-- The times that the wheel of rs/base/src/timer.rs sets and the times that it reads.
use tenon.Prelude.{
  ◌^◌, String, true, false, not, ◌≡◌, inl, inr, refl, sym, ap, ◌∙◌, Option, none, some, arith,
  if◌then◌else◌, if_split, if_both, Option-cases,
}
use tenon.Prelude.Int.{ℤ, pos, ltb_ℤ, ◌+ℤ◌, ◌≤ℤ◌, ◌<ℤ◌, ◌-ℤ◌, ltb_ℤ→lt, i64_min, i64_max, int_laws}
use tenon.Json.{Value, object, integer}
use tenon.Trigger.Template.{get}
use tenon.Trigger.Fire.{as_str}
use tenon.Kv.{Bytes}
use tenon.Timer.{Timer, record_of, parse, parsed, int_or, as_i64, wrap_add}
use tenon.Timer.Wheel.{timer_of, repeats, next_time, is_due, parse_some}

module _ (encode : Value → Bytes) (decode : Bytes → Option Value) where
  -- What is written of a timer's record, and can be read again, has the same time of firing.
  abbrev pub ReadsBack : Type 0
  ReadsBack =
      (t : Timer) (v : Value)
      → decode (encode (object (record_of t))) ≡ some v
      → get v "fire_at" ≡ some (integer t.fire_at)

  -- The next time of a repeating timer is in the range of `i64`.
  abbrev pub interval_of : Option ℤ → ℤ
  interval_of none = pos 0
  interval_of (some every) = every

  abbrev pub InRange : ℤ → Timer → Type 0
  InRange at t = at +ℤ interval_of t.every_ms ≤ℤ i64_max

  ltb_of_lt : (a b : ℤ) → a <ℤ b → ltb_ℤ a b ≡ true
  ltb_of_lt a b h = ground arith

  not_ltb_ℤ : (a b : ℤ) → b ≤ℤ a → ltb_ℤ a b ≡ false
  not_ltb_ℤ a b h = ground arith

  later_by : (a b : ℤ) → ltb_ℤ (pos 0) b ≡ true → ltb_ℤ a (a +ℤ b) ≡ true
  later_by a b h = ltb_of_lt a (a +ℤ b) (omega (int_laws, ltb_ℤ→lt (pos 0) b h))

  later_too : (a b c : ℤ) → ltb_ℤ a b ≡ true → ltb_ℤ (pos 0) c ≡ true → ltb_ℤ a (b +ℤ c) ≡ true
  later_too a b c h g =
      ltb_of_lt a (b +ℤ c) (omega (int_laws, ltb_ℤ→lt a b h, ltb_ℤ→lt (pos 0) c g))

  pub late :
      (at every : ℤ)
      → ltb_ℤ (pos 0) every ≡ true
      → (at +ℤ every) ≤ℤ i64_max
      → ltb_ℤ at (wrap_add at every) ≡ true
  unfolding wrap_add
  late at every again h =
      let sum = at +ℤ every in
      let on = later_by at every again in
      if_split (λ w. ltb_ℤ at w ≡ true) (ltb_ℤ i64_max sum) (sum -ℤ pos (2 ^ 64))
        (if ltb_ℤ sum i64_min then sum +ℤ pos (2 ^ 64) else sum)
        (λ over. absurd (omega (arith, ltb_ℤ→lt i64_max sum over, h)))
        (λ within.
          if_both (λ w. ltb_ℤ at w ≡ true) (ltb_ℤ sum i64_min) (sum +ℤ pos (2 ^ 64)) sum
            (later_too at sum (pos (2 ^ 64)) on refl) on)

  in_range : (at every : ℤ) → (at +ℤ every) ≤ℤ i64_max → ltb_ℤ i64_max (wrap_add at every) ≡ false
  unfolding wrap_add
  in_range at every h =
      let sum = at +ℤ every in
      let small = not_ltb_ℤ i64_max sum h in
      if_split (λ w. ltb_ℤ i64_max w ≡ false) (ltb_ℤ i64_max sum) (sum -ℤ pos (2 ^ 64))
        (if ltb_ℤ sum i64_min then sum +ℤ pos (2 ^ 64) else sum)
        (λ over. absurd (ground (arith, over, small)))
        (λ within.
          if_split (λ w. ltb_ℤ i64_max w ≡ false) (ltb_ℤ sum i64_min) (sum +ℤ pos (2 ^ 64)) sum
            (λ below.
              not_ltb_ℤ i64_max (sum +ℤ pos (2 ^ 64))
                (omega (int_laws, ltb_ℤ→lt sum i64_min below)))
            (λ above. small))

  read_int : (n : ℤ) → ltb_ℤ i64_max n ≡ false → int_or (pos 0) (as_i64 (some (integer n))) ≡ n
  read_int n h = ground (arith, h)

  next_in_range :
      (at : ℤ) (every : Option ℤ)
      → repeats encode decode every ≡ true
      → at +ℤ interval_of every ≤ℤ i64_max
      → ltb_ℤ i64_max (next_time encode decode at every) ≡ false
  next_in_range at none again h = absurd (ground (arith, again))
  next_in_range at (some every) again h = in_range at every h

  next_late :
      (at : ℤ) (every : Option ℤ)
      → repeats encode decode every ≡ true
      → at +ℤ interval_of every ≤ℤ i64_max
      → ltb_ℤ at (next_time encode decode at every) ≡ true
  next_late at none again h = absurd (ground (arith, again))
  next_late at (some every) again h = late at every again h

  parse-fire_at :
      (v : Value) (t : Timer)
      → parse v ≡ some t
      → t.fire_at ≡ int_or (pos 0) (as_i64 (get v "fire_at"))
  unfolding parse
  parse-fire_at v t e =
      by_texts (as_str (get v "id")) (as_str (get v "env")) (as_str (get v "topic")) e
    where
      by_texts :
          (id env topic : Option String)
          → parsed v id env topic ≡ some t
          → t.fire_at ≡ int_or (pos 0) (as_i64 (get v "fire_at"))
      by_texts none env topic e = absurd (ground (arith, e))
      by_texts (some id) none topic e = absurd (ground (arith, e))
      by_texts (some id) (some env) none e = absurd (ground (arith, e))
      by_texts (some id) (some env) (some topic) e = ground (arith, e)

  -- A repeating timer that is written anew does not come back as due.
  pub goes_on :
      ReadsBack
      → (at : ℤ) (t t' : Timer) → repeats encode decode t.every_ms ≡ true
      → InRange at t
      → timer_of encode decode (
          encode
            (object (record_of (record t { fire_at = next_time encode decode at t.every_ms }))))
        ≡ some t'
      → is_due encode decode at t' ≡ false
  goes_on back at t t' again fits e =
      let new : Timer = record t { fire_at = next_time encode decode at t.every_ms } in
      elim (Option-cases (decode (encode (object (record_of new))))) [
        | inl gone ↦ absurd (ground (arith, e, gone))
        | inr (v, there) ↦
            let same = back new v there in
            let read : parse v ≡ some t' = sym (ap (parse_some encode decode) there) ∙ e in
            let late' = next_late at t.every_ms again fits in
            let now = parse-fire_at v t' read in
            let at_next : t'.fire_at ≡ new.fire_at =
              now
              ∙ ap (λ o. int_or (pos 0) (as_i64 o)) same
              ∙ read_int new.fire_at (next_in_range at t.every_ms again fits) in
            ap (λ n. not (ltb_ℤ at n)) at_next ∙ ap not late'
      ]
