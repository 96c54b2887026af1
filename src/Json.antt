-- ===== src/Json.antt =====
-- JSON values as `serde_json::Value` has them. A number is an integer (`u64` or `i64`) or the bit
-- pattern of an `f64`; an object is its entries in the order in which `values()` walks them.
use tenon.Prelude.{ℕ, String, Bool}
use tenon.Prelude.Int.{ℤ}

mutual
  pub data Value : Type 0 where
    null : Value
    bool : Bool → Value
    integer : ℤ → Value
    float : ℕ → Value
    string : String → Value
    array : Items → Value
    object : Fields → Value

  pub data Items : Type 0 where
    nil : Items
    cons : Value → Items → Items

  pub data Fields : Type 0 where
    end : Fields
    field : String → Value → Fields → Fields
