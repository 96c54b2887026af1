-- ===== src/Bus/Envelope.antt =====
-- The envelope and its own operations (rs/bus/src/envelope.rs). The clock and the fresh id are
-- arguments: `now` is what `now_ms` returns, `fresh` what `ulid` returns.
use tenon.Prelude.{
  ℕ, String, Bool, true, false, Option, none, some, [], ◌==◌, String_eq, ℕ_eq, if◌then◌else◌,
}
use tenon.Prelude.Int.{ℤ, pos, negsuc, leb_ℤ, sat_add, sat_mul}
use tenon.Json.{Value}
use tenon.Bus.Level.{Level}
use tenon.Bus.Tags
use tenon.Bus.Tags.{Tags}

pub record Envelope : Type 0 where
  pub topic : String
  pub ts : ℤ
  pub host : String
  pub env : Option String
  pub src : String
  pub level : Level
  pub durable : Bool
  pub model_visible : Bool
  pub ttl_s : Option ℕ
  pub session : Option String
  pub step : Option ℤ
  pub event_id : String
  pub hop : ℕ
  pub tags : Tags
  pub payload : Value

-- `Envelope::new`
abbrev pub new : ℤ → String → String → Level → Value → Envelope
new now fresh topic level payload = record {
  topic = topic;
  ts = now;
  host = "";
  env = none;
  src = "";
  level = level;
  durable = false;
  model_visible = false;
  ttl_s = none;
  session = none;
  step = none;
  event_id = fresh;
  hop = 0;
  tags = [];
  payload = payload;
}

abbrev is_zero : ℤ → Bool
is_zero (pos n) = n == 0
is_zero (negsuc n) = false

unfoldable pub normalize : ℤ → String → Envelope → Envelope
normalize now fresh e = record e {
  durable = if e.model_visible then true else e.durable;
  event_id = if e.event_id == "" then fresh else e.event_id;
  ts = if is_zero e.ts then now else e.ts;
}

-- The deadline `ts + ttl_s` seconds, in milliseconds, against the clock.
unfoldable pub is_expired : Envelope → ℤ → Bool
is_expired e now = elim e.ttl_s [
  | some ttl ↦ leb_ℤ (sat_add e.ts (sat_mul (pos ttl) (pos 1000))) now
  | none ↦ false
]

unfoldable pub compaction_key : Envelope → String
compaction_key e = elim (Tags.get e.tags "key") [ some key ↦ key | none ↦ e.topic ]
