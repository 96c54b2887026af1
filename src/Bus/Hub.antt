-- ===== src/Bus/Hub.antt =====
-- The hub (rs/bus/src/hub.rs): its subscribers, their rings, the queue of its writer task and the
-- highest offset. A ring is shared by the hub and a subscription, so rings stand in a store and
-- are named by their place in it. Each method is one step of the state; `now` and `fresh` are what
-- the clock and the id generator return in it (`other` is the id of a violation's envelope). The leak guard is compiled in (feature `http`).
pub mod Subscribe
pub mod Commit
pub mod Delivery
pub mod Sound
pub mod Reach
pub mod Replay
pub mod Answers
pub mod Drain
pub mod Tests
use tenon.Prelude.{
  ℕ, zero, suc, ◌+◌, max, String, Bool, true, false, not, ◌&&◌, Option, none, some, List, [], ◌∷◌,
  ◌++◌, ◌==◌, ℕ_eq, any, retain, is_empty, leb, ltb, Result, ok, err, if◌then◌else◌,
}
use tenon.Prelude.Int.{ℤ}
use tenon.Text.{◌<>◌}
use tenon.Json.{Value, object, string, end, field}
use tenon.Bus.Level
use tenon.Bus.Tags.{Tags}
use tenon.Bus.Envelope
use tenon.Bus.Envelope.{Envelope, normalize, is_expired}
use tenon.Bus.Filter.{Filter, matches}
use tenon.Bus.Ring
use tenon.Bus.Ring.{Ring, Published}
use tenon.Bus.Secret.{Rule, scan_envelope}

abbrev pub batch_max : ℕ
batch_max = 512

abbrev pub default_cap : ℕ
default_cap = 4096

abbrev pub replay_max : ℕ
replay_max = 50_000

pub record SubEntry : Type 0 where
  pub filter : Filter
  pub ring : ℕ
  pub since_max : ℕ

-- `reply` names the channel of a publisher that waits for its offset.
pub record Job : Type 0 where
  pub envelope : Envelope
  pub reply : Option ℕ

-- The sender of the writer's queue: not there, there, or there with its receiver gone.
pub data Writer : Type 0 where
  absent running gone : Writer

pub record Hub : Type 0 where
  pub subs : List SubEntry
  pub rings : ℕ → Ring
  pub next_ring : ℕ
  pub writer : Writer
  pub jobs : List Job
  pub max_offset : ℕ
  pub secrets : List Rule
  pub next_reply : ℕ
  pub replies : List (ℕ × ℕ)

abbrev pub update {ℓ} : {A : Type ℓ} → (ℕ → A) → ℕ → A → ℕ → A
update f i a j = if j == i then a else f j

-- `Hub::new` (no writer) and `Hub::with_durable` (a writer, and the log's head).
unfoldable pub new : Writer → ℕ → Hub
new writer head = record {
  subs = [];
  rings = λ i. Ring.new 1 false;
  next_ring = 0;
  writer = writer;
  jobs = [];
  max_offset = head;
  secrets = [];
  next_reply = 0;
  replies = [];
}

unfoldable pub set_secrets : Hub → List Rule → Hub
set_secrets h rules = record h { secrets = rules }

abbrev pub is_alive : Hub → SubEntry → Bool
is_alive h s = (h.rings s.ring).alive

unfoldable pub prune : Hub → Hub
prune h = record h { subs = retain (is_alive h) h.subs }

-- A message of the log that the subscriber's replay covers.
abbrev pub replayed : ℕ → Published → Bool
replayed since_max msg = ltb 0 msg.offset && leb msg.offset since_max

-- One round of the loop of `fan_out`.
unfoldable pub deliver : Published → SubEntry → (ℕ → Ring) → ℕ → Ring
deliver msg s rings =
    if not (rings s.ring).alive
    then rings
    else if replayed s.since_max msg
    then rings
    else if matches s.filter msg.envelope
    then update rings s.ring (Ring.push (rings s.ring) msg)
    else rings

unfoldable pub deliver_all : Published → List SubEntry → (ℕ → Ring) → ℕ → Ring
deliver_all msg [] rings = rings
deliver_all msg (s ∷ subs) rings = deliver_all msg subs (deliver msg s rings)

unfoldable pub fan_out : ℤ → Published → Hub → Hub
fan_out now msg h =
    if is_expired msg.envelope now
    then h
    else (let h' = record h { rings = deliver_all msg h.subs h.rings } in
        if any (λ s. not (is_alive h s)) h.subs then prune h' else h')

-- `json!({"secret": name, "topic": topic, "action": "block"})`, its keys in order.
abbrev violation_payload : String → String → Value
violation_payload name topic = object (
    field "action" (string "block")
      (field "secret" (string name) (field "topic" (string topic) end)))

unfoldable pub emit_violation : ℤ → String → String → String → Option String → Hub → Hub
emit_violation now fresh name topic env = fan_out now (record {
  envelope =
      normalize now fresh
        (record (Envelope.new now fresh "guardian/violation" Level.error
          (violation_payload name topic)) { env = env; src = "base" });
  offset = 0;
})

-- What the scan of an envelope comes to.
abbrev pub guarded :
    ℤ → String → Envelope → Hub → Result String (Value × Tags) → Result String Envelope × Hub
guarded now fresh e h (ok (payload, tags)) = (ok (record e { payload = payload; tags = tags }), h)
guarded now fresh e h (err name) = (
  err ("secret " <> name <> " blocked from topic " <> e.topic),
  emit_violation now fresh name e.topic e.env h,
)

unfoldable pub guard : ℤ → String → Envelope → Hub → Result String Envelope × Hub
guard now fresh e h =
    if is_empty h.secrets
    then (ok e, h)
    else guarded now fresh e h (scan_envelope h.secrets e.payload e.tags)

-- A durable envelope goes to the writer if there is one; `reply` is the publisher's channel.
abbrev queue_job : Envelope → Option ℕ → Hub → Hub
queue_job e reply h = record h { jobs = h.jobs ++ record { envelope = e; reply = reply } ∷ [] }

abbrev live : ℤ → Envelope → Hub → Hub
live now e h = fan_out now (record { envelope = e; offset = 0 }) h

abbrev emit_durable : ℤ → Envelope → Hub → Writer → Hub
emit_durable now e h running = queue_job e none h
emit_durable now e h gone = h
emit_durable now e h absent = live now e h

abbrev emit_guarded : ℤ → Result String Envelope × Hub → Hub
emit_guarded now (err reason, h) = h
emit_guarded now (ok e, h) = if e.durable then emit_durable now e h h.writer else live now e h

unfoldable pub emit : ℤ → String → String → Envelope → Hub → Hub
emit now fresh other e h = emit_guarded now (guard now other (normalize now fresh e) h)

-- A publish is refused, is done (with its offset), or waits for the writer on a channel.
pub data Outcome : Type 0 where
  refused : String → Outcome
  done : ℕ → Outcome
  waiting : ℕ → Outcome

abbrev publish_durable : ℤ → Envelope → Hub → Writer → Outcome × Hub
publish_durable now e h running = (
  waiting h.next_reply,
  record (queue_job e (some h.next_reply) h) { next_reply = h.next_reply + 1 },
)
publish_durable now e h gone = (refused "bus writer gone", h)
publish_durable now e h absent = (done 0, live now e h)

abbrev publish_guarded : ℤ → Result String Envelope × Hub → Outcome × Hub
publish_guarded now (err reason, h) = (refused reason, h)
publish_guarded now (ok e, h) =
    if e.durable then publish_durable now e h h.writer else (done 0, live now e h)

unfoldable pub publish : ℤ → String → String → Envelope → Hub → Outcome × Hub
publish now fresh other e h = publish_guarded now (guard now other (normalize now fresh e) h)
