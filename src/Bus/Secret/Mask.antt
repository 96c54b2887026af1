-- ===== src/Bus/Secret/Mask.antt =====
-- What a masked value is free of. Both facts are about a needle that has a character and shares
-- none with the marker.
use Prim.Native.Char.{Char}
use tenon.Prelude.{String, false, ◌≡◌, ◌≢◌, refl, String_eq, arith}
use tenon.Text.{contains_str, replace, shares}
use tenon.Text.Replace.{contains-replace_self, contains-replace_other}
use tenon.Json.{
  Value, Items, Fields, null, bool, integer, float, string, array, object, nil, cons, end, field,
}
use tenon.Bus.Secret.{
  contains, contains_items, contains_fields, mask_value, mask_items, mask_fields, mask_text, marker,
}

abbrev pub Foreign : String → String → Type 0
Foreign needle name = shares needle (marker name) ≡ false

module _ (c : Char) (n : String) (name : String) (f : Foreign (String.◌∷◌ c n) name) where
  replace_self :
      (t : String)
      → contains_str (String.◌∷◌ c n) (replace (String.◌∷◌ c n) (marker name) t) ≡ false
  unfolding replace
  replace_self t = contains-replace_self c n _ _ 0 t f

  replace_other :
      (p t : String)
      → contains_str (String.◌∷◌ c n) t ≡ false
      → contains_str (String.◌∷◌ c n) (replace p (marker name) t) ≡ false
  unfolding replace
  replace_other p t h = contains-replace_other p _ _ 0 c n t f h

  text_self :
      (t : String) → contains_str (String.◌∷◌ c n) (mask_text (String.◌∷◌ c n) name t) ≡ false
  text_self t = ground (arith, replace_self t)

  text_other :
      (p t : String)
      → contains_str (String.◌∷◌ c n) t ≡ false
      → contains_str (String.◌∷◌ c n) (mask_text p name t) ≡ false
  text_other p t h = ground (arith, replace_other p t h)

  mutual
    unfolding contains mask_value

    self : (v : Value) → contains (String.◌∷◌ c n) (mask_value (String.◌∷◌ c n) name v) ≡ false
    self null = refl
    self (bool b) = refl
    self (integer i) = refl
    self (float bits) = refl
    self (string t) = ground (arith, text_self t)
    self (array rows) = ground (arith, items_self rows)
    self (object map) = ground (arith, fields_self map)

    items_self :
        (rows : Items)
        → contains_items (String.◌∷◌ c n) (mask_items (String.◌∷◌ c n) name rows) ≡ false
    items_self nil = refl
    items_self (cons row rows) = ground (arith, self row, items_self rows)

    fields_self :
        (map : Fields)
        → contains_fields (String.◌∷◌ c n) (mask_fields (String.◌∷◌ c n) name map) ≡ false
    fields_self end = refl
    fields_self (field key row map) = ground (arith, self row, fields_self map)

  mutual
    unfolding contains mask_value

    other :
        (p : String) (v : Value)
        → contains (String.◌∷◌ c n) v ≡ false
        → contains (String.◌∷◌ c n) (mask_value p name v) ≡ false
    other p null h = h
    other p (bool b) h = h
    other p (integer i) h = h
    other p (float bits) h = h
    other p (string t) h = ground (arith, text_other p t)
    other p (array rows) h = ground (arith, items_other p rows)
    other p (object map) h = ground (arith, fields_other p map)

    items_other :
        (p : String) (rows : Items)
        → contains_items (String.◌∷◌ c n) rows ≡ false
        → contains_items (String.◌∷◌ c n) (mask_items p name rows) ≡ false
    items_other p nil h = h
    items_other p (cons row rows) h = ground (arith, other p row, items_other p rows)

    fields_other :
        (p : String) (map : Fields)
        → contains_fields (String.◌∷◌ c n) map ≡ false
        → contains_fields (String.◌∷◌ c n) (mask_fields p name map) ≡ false
    fields_other p end h = h
    fields_other p (field key row map) h = ground (arith, other p row, fields_other p map)

-- After a value is masked it is nowhere in the payload.
pub contains-mask_self :
    (needle name : String) (v : Value)
    → needle ≢ ""
    → Foreign needle name
    → contains needle (mask_value needle name v) ≡ false
contains-mask_self String.[] name v some_char f = absurd (some_char refl)
contains-mask_self (String.◌∷◌ c n) name v some_char f = self c n name f v

-- Masking another value does not bring a value back.
pub contains-mask_other :
    (needle p name : String) (v : Value)
    → needle ≢ ""
    → Foreign needle name
    → contains needle v ≡ false
    → contains needle (mask_value p name v) ≡ false
contains-mask_other String.[] p name v some_char f h = absurd (some_char refl)
contains-mask_other (String.◌∷◌ c n) p name v some_char f h = other c n name f p v h

pub replace-clean_self :
    (needle name t : String)
    → needle ≢ ""
    → Foreign needle name
    → contains_str needle (replace needle (marker name) t) ≡ false
replace-clean_self String.[] name t some_char f = absurd (some_char refl)
replace-clean_self (String.◌∷◌ c n) name t some_char f = replace_self c n name f t

pub replace-clean_other :
    (needle p name t : String)
    → needle ≢ ""
    → Foreign needle name
    → contains_str needle t ≡ false
    → contains_str needle (replace p (marker name) t) ≡ false
replace-clean_other String.[] p name t some_char f h = absurd (some_char refl)
replace-clean_other (String.◌∷◌ c n) p name t some_char f h = replace_other c n name f p t h
