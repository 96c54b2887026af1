-- ===== src/Ulid/Order.antt =====
-- The order and the freshness of the ids that one process makes (`ulid` of rs/bus/src/envelope.rs).

use tenon.Prelude.{
  ℕ, ◌^◌, ◌≤◌, ◌<◌, String, true, false, ◌≡◌, ◌≢◌, refl, sym, ap, ◌∙◌, inl, inr, Bool-cases, ℕ_eq,
  arith, ltb,
}
use tenon.Text.{count, str_ltb}
use tenon.Ulid.{encode_slots, encode_base32, fold_bytes, id_bytes, id_of}
use tenon.Ulid.Value.{id_value, fold_bytes-id_bytes, id_value_fits}
use tenon.Ulid.Digits.{slots-Ordered, count-encode_slots}

id_text :
    (ts base counter : ℕ)
    → ts < 2 ^ 48
    → counter < 2 ^ 64
    → id_of ts base counter ≡ encode_slots 26 (id_value ts base counter) ""
unfolding encode_base32
id_text ts base counter small low =
    ap (λ (n : ℕ). encode_slots 26 n "") (fold_bytes-id_bytes ts base counter small low)

pub count-id_of : (ts base counter : ℕ) → count (id_of ts base counter) ≡ 26
unfolding encode_base32
count-id_of ts base counter = count-encode_slots 26 (fold_bytes 0 (id_bytes ts base counter)) ""

pub value_less :
    (ts base counter ts' base' counter' : ℕ)
    → ts < 2 ^ 48
    → counter < 2 ^ 64
    → ts' < 2 ^ 48
    → counter' < 2 ^ 64
    → id_value ts base counter < id_value ts' base' counter'
    → str_ltb (id_of ts base counter) (id_of ts' base' counter') ≡ true
value_less ts base counter ts' base' counter' small low small' low' less =
    let fits = id_value_fits ts base counter small low in
    let fits' = id_value_fits ts' base' counter' small' low' in
    let order =
      slots-Ordered 26 (id_value ts base counter) (id_value ts' base' counter') "" ""
        (omega (arith, fits)) (omega (arith, fits')) in
    ap (λ (s : String). str_ltb s (id_of ts' base' counter')) (id_text ts base counter small low)
    ∙ ap (str_ltb (encode_slots 26 (id_value ts base counter) ""))
        (id_text ts' base' counter' small' low')
    ∙ order.0 less

pub later_value :
    (ts base counter ts' counter' : ℕ)
    → counter < 2 ^ 64
    → ts ≤ ts'
    → counter < counter'
    → id_value ts base counter < id_value ts' base counter'
later_value ts base counter ts' counter' low rises more = omega (arith, low, rises, more)

irreflexive : (s : String) → str_ltb s s ≡ false
irreflexive String.[] = refl
irreflexive (String.◌∷◌ c s) = ground (arith, irreflexive s)

pub other_counter :
    (ts base counter ts' counter' : ℕ)
    → ts < 2 ^ 48
    → ts' < 2 ^ 48
    → counter' < 2 ^ 64
    → counter < counter'
    → id_of ts base counter ≢ id_of ts' base counter'
other_counter ts base counter ts' counter' small small' low' more same =
    elim (Bool-cases (ltb (id_value ts base counter) (id_value ts' base counter'))) [
      | inl less ↦ clash _ _ same (
          value_less ts base counter ts' base counter' small (omega (arith, more, low')) small' low'
            (ground (arith, less)))
      | inr more_than ↦
          let above =
            strictly (id_value ts base counter) (id_value ts' base counter') more_than
              (apart ts base counter ts' counter' more low') in
          clash _ _ (sym same) (
            value_less ts' base counter' ts base counter small' low' small
              (omega (arith, more, low')) above)
    ]
  where
    clash : (s t : String) → s ≡ t → str_ltb s t ≡ true → ⊥
    clash s t same less = ground (arith, less, irreflexive s, ap (str_ltb s) same)

    apart :
        (ts base counter ts' counter' : ℕ)
        → counter < counter'
        → counter' < 2 ^ 64
        → id_value ts base counter ≢ id_value ts' base counter'
    apart ts base counter ts' counter' more low same = omega (arith, more, low, same)

    strictly : (a b : ℕ) → ltb a b ≡ false → a ≢ b → b < a
    strictly a b level apart = ground (arith, level, apart)
