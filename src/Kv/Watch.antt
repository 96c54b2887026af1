-- ===== src/Kv/Watch.antt =====
-- The changes as envelopes of the hub, and the filter of a watch (rs/base/src/kv.rs). `lossy` is
-- `String::from_utf8_lossy`, `now` and `fresh` are the clock's and the id generator's.
use Prim.Native.Char.{code}
use tenon.Prelude.{
  String, true, ◌≡◌, refl, Option, none, some, [], ◌∷◌, arith, ◌==◌, ℕ_eq, if◌then◌else◌,
}
use tenon.Prelude.Int.{ℤ, pos}
use tenon.Text.{◌<>◌}
use tenon.Json.{Value, null, string, integer, object, end, field}
use tenon.Bus.Level
use tenon.Bus.Envelope
use tenon.Bus.Envelope.{Envelope}
use tenon.Bus.Filter
use tenon.Bus.Filter.{Filter, matches}
use tenon.Bus.Filter.Meaning.{matches-Accepts}
use tenon.Kv.{Bytes, Change}

-- `trim_start_matches('/')`
abbrev pub trim_slashes : String → String
trim_slashes String.[] = ""
trim_slashes (String.◌∷◌ c s) =
    let rest = trim_slashes s in if code c == b'/' then rest else String.◌∷◌ c s

abbrev value_json : (Bytes → String) → Option Bytes → Value
value_json lossy none = null
value_json lossy (some bytes) = string (lossy bytes)

unfoldable pub change_envelope : (Bytes → String) → ℤ → String → Change → Envelope
change_envelope lossy now fresh change =
    record (Envelope.new now fresh ("kv/" <> trim_slashes change.name.1) Level.info (
      object (
        field "key" (string change.name.1) (
          field "op" (string change.op) (
            field "rev" (integer (pos change.rev))
              (field "value" (value_json lossy change.value) end)))))) {
                env = some change.name.0;
                src = "kv";
                durable = true;
              }

unfoldable pub watch_filter : String → String → Filter
watch_filter env prefix = record Filter.all {
  topics = ("kv/" <> trim_slashes prefix <> "**") ∷ [];
  env = some env;
}

-- A change that a watch passes is a change of the watch's env, and it goes through the durable log.
pub watch_filter_own_env :
    (lossy : Bytes → String) (now : ℤ) (fresh env prefix : String) (change : Change)
    → matches (watch_filter env prefix) (change_envelope lossy now fresh change) ≡ true
    → (change.name.0 ≡ env) × ((change_envelope lossy now fresh change).durable ≡ true)
unfolding watch_filter change_envelope
watch_filter_own_env lossy now fresh env prefix change passes =
    let same = ((matches-Accepts _ _).0 passes).env in (ground (arith, same), refl)
