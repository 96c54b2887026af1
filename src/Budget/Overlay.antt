-- ===== src/Budget/Overlay.antt =====
-- The limits and the prices of an env (rs/base/src/budget.rs): the host's, and what the env's overlay puts
-- in their place.
use tenon.Prelude.{String, Bool, true, false, ◌||◌, Option, none, some, String_eq, if◌then◌else◌}
use tenon.Prelude.Int.{pos}
use tenon.Json.{Value, object, integer, float}
use tenon.Trigger.Template.{get, or_empty}
use tenon.Trigger.Fire.{as_str, or_null}
use tenon.Timer.{as_i64, as_u64}
use tenon.Budget.{Floats, Limits, Prices, HostConfig, Surroundings, or_object}

abbrev is_there : Option Value → Bool
is_there none = false
is_there (some v) = true

abbrev pub or_else : {A : Type 0} → A → Option A → A
or_else fallback none = fallback
or_else fallback (some a) = a

module _ (fl : Floats) where
  abbrev as_f64 : Option Value → Option fl.Float
  as_f64 (some (integer n)) = some (fl.of_int n)
  as_f64 (some (float bits)) = some (fl.of_bits bits)
  as_f64 v = none

  abbrev merged : Limits fl.Float → Option Value → Limits fl.Float
  merged limits (some (object rows)) = record {
    tokens = or_else limits.tokens (as_i64 (get (object rows) "tokens"));
    usd = or_else limits.usd (as_f64 (get (object rows) "usd"));
    wall_s = or_else limits.wall_s (as_u64 (get (object rows) "wall_s"));
    processes = or_else limits.processes (as_i64 (get (object rows) "processes"));
  }
  merged limits v = limits

  unfoldable pub budgets_of : Surroundings → HostConfig fl.Float → String → Limits fl.Float
  budgets_of w config env = merged config.budgets (get (or_object (w.overlay env)) "budgets")

  abbrev pub zero_float : fl.Float
  zero_float = fl.of_int (pos 0)

  abbrev price_row : Value → Value → Value
  price_row table llm =
      if is_there (get table "input") || is_there (get table "output")
      then table
      else or_null (get table (or_empty (as_str (get llm "provider"))))

  abbrev price_table : Prices fl.Float → Value → Option Value → Prices fl.Float
  price_table own overlay none = own
  price_table own overlay (some table) =
      let row = price_row table (or_null (get overlay "llm")) in
      record {
        input = or_else zero_float (as_f64 (get row "input"));
        output = or_else zero_float (as_f64 (get row "output"));
      }

  unfoldable pub prices_of : Surroundings → HostConfig fl.Float → String → Prices fl.Float
  prices_of w config env =
      let overlay = or_object (w.overlay env) in
      price_table config.usd_per_1k overlay (get overlay "usd_per_1k")
