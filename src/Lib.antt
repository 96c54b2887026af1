-- ===== src/Lib.antt =====
-- Tenon: the message hub and the services of its host.
--
-- A host process (rs/base) serves several envs. Its parts talk over one in-process hub (rs/bus):
-- envelopes are published, checked by a leak guard, written to a durable log by one writer task and
-- fanned out to the rings of the subscribers whose filters pass them. The services keep their state
-- beside it: a kv facade fires its changes into the hub, triggers watch the hub and publish back
-- into it, timers are records of the kv facade that one wheel fires, requests and gated actions wait
-- in the approval queue for a human, a limiter paces the calls of an account, budgets stop an env
-- that has spent enough, proposals to change the system pass a gate and a driver, a retention pass
-- keeps an env's state file small, and an authorizer guards the serve routes. The terminal ui
-- (rs/ui) draws boxes of wrapped lines.
--
-- Which file models what:
--   Bus/Level, Bus/Tags, Bus/Envelope   rs/bus/src/envelope.rs: Level, Envelope and its methods.
--   Ulid            rs/bus/src/envelope.rs: ulid and encode_base32.
--   Bus/Filter      rs/bus/src/filter.rs: Filter, glob, is_reserved.
--   Bus/Ring        rs/bus/src/ring.rs: Ring and one round of Subscription::recv.
--   Bus/Secret      rs/bus/src/secret.rs: Rule, scan, scan_envelope, mask.
--   Bus/Hub, Bus/Hub/Subscribe, Bus/Hub/Commit   rs/bus/src/hub.rs: Hub, its methods, writer_loop.
--   RateLimit, RateLimit/Limiter   rs/base/src/ratelimit.rs: RateConfig, Limiter and its methods.
--   Trigger, Trigger/Template, Trigger/Record, Trigger/Store, Trigger/Fire   rs/base/src/trigger.rs: rules,
--     their templates, their stored record, their place in the kv facade and their actions.
--   Auth            rs/base/src/auth.rs: authorize, constant_time_eq.
--   Kv, Kv/Expiry, Kv/Counter, Kv/Watch, Kv/Tick, Kv/Range   rs/base/src/kv.rs and the kv table of
--     rs/storage/src/kv.rs.
--   Timer, Timer/Wheel   rs/base/src/timer.rs: TimerService over the kv facade.
--   ApprovalRows    rs/storage/src/approvals.rs: the approvals table.
--   Approvals, Approvals/Answers, Approvals/Gate, Approvals/Export   rs/base/src/approvals.rs: the queue,
--     its verdicts, its gates and what is exported behind one; Approvals/Runs has the runs of its calls.
--   Budget, Budget/Overlay, Budget/Accounts   rs/base/src/budget.rs: the budgets of the envs, the hard
--     stop, the prompt gate; events_append of rs/base/src/envrpc.rs.
--   Budget/Harness  rs/base/src/harness.rs: the life of a harness, whose process is the pid in the env's
--     node; kill_switch of rs/base/src/budget.rs.
--     Budget/Runs has the runs of these calls.
--   Upgrade, Upgrade/Propose, Upgrade/Runs   rs/base/src/upgrade.rs: proposals, their gate and their start;
--     the table of rs/storage/src/upgrades.rs.
--   Upgrade/Drive   rs/base/src/drive.rs: drive, run and verify.
--   Retention       rs/storage/src/retain.rs: the retention pass over an env's state file.
--   Box, Box/Split  rs/ui/src/boxes.rs and fixed_width of rs/ui/src/wrap.rs.
--   Wrap            rs/ui/src/wrap.rs: wrap_line and wrap_lines.
--   Json, Text, Decimal   the JSON values, texts and decimal digits that these use.
--   Prelude         shared names, lists, tests, integers and lemmas.
-- The other files hold proofs and are named for what they prove; the files called Tests hold runs at
-- concrete inputs.
--
-- State and steps. A method that changes a shared object takes its state and returns the new one. A
-- mutex makes a method one step. Rings are shared by the hub and its subscriptions, so the hub holds a
-- store of rings and names them by number. The clock, fresh ids, the moments at which jobs arrive and
-- the answers of remote calls are arguments. The durable log is a record of its operations; `f64` and
-- its operations are another. Which statements of a store succeed is an argument. A call that waits for
-- an approval is the number of its channel, and the state keeps what each channel was sent.
--
-- Bounds and fuel. Counters and offsets are natural numbers and do not wrap; where the source wraps
-- or saturates, the model does so (the jitter's product, `as i64`, `as u8`, saturating sums of
-- times, the deadlines of the kv facade, the sums of the wheel and of the limiter's times, the hop
-- of a rule's publication, the sums of tokens, the counter of ids). The digits of a number are found with fuel one
-- above the number, more than it has digits. The loop over `${` in a template has the length of the
-- text as fuel, and each round removes characters. The loop that takes rows back from a split has as
-- fuel one turn over the places for each row that it takes, many times over: each turn takes one
-- while there is one. The loop that cuts a long word has its characters as fuel, and each round
-- takes at least one. An id has 26 slots for its 128 bits.
--
-- Not modelled: the encoding of envelopes; the HTTP client, sockets and processes; the tasks that
-- sleep (the wheel between two turns, the expiry and budget ticks, the watch of the stop file); the
-- start and the reset of an env, its second node during a switch, and the steps of a candidate,
-- whose answers are arguments of the driver; the view model of the ui; the other services of the
-- host, the storage behind SQLite, the harness, the sandbox, the worker, the command line, and the
-- parts in Erlang and Elixir.
pub mod Prelude
pub mod ApprovalRows
pub mod Approvals
pub mod Auth
pub mod Box
pub mod Budget
pub mod Bus
pub mod Decimal
pub mod Json
pub mod Kv
pub mod RateLimit
pub mod Retention
pub mod Text
pub mod Timer
pub mod Trigger
pub mod Ulid
pub mod Upgrade
pub mod Wrap
