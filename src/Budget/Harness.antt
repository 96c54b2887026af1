-- ===== src/Budget/Harness.antt =====
-- The life of an env's harness (rs/base/src/harness.rs) and the kill switch (rs/base/src/budget.rs).
-- The process is what a spawn gave; ending it is left to the system.
use tenon.Prelude.{
  ℕ, suc, String, Bool, true, false, ◌&&◌, ◌||◌, not, Option, none, some, List, [], ◌∷◌, ◌==◌, ℕ_eq,
  String_eq, leb, if◌then◌else◌,
}
use tenon.Prelude.Int.{ℤ}
use tenon.Json.{Value}
use tenon.Budget.{
  HarnessState, off, booting, ready, failed, Node, HostConfig, Base, Halt, Surroundings, event,
  guardian, update, emit, notify_guardian,
}
use tenon.Budget.Accounts.{workers, halted}

abbrev is_up : HarnessState → Bool
is_up booting = true
is_up (ready pid) = true
is_up state = false

abbrev pub has_pid : Option ℤ → Bool
has_pid none = false
has_pid (some pid) = true

module _ {F : Type 0} where
  abbrev pub set_state : HarnessState → Node F → Node F
  set_state state n = record n { harness = state }

  abbrev pub with_process : ℤ → Node F → Node F
  with_process pid n = record n { harness = booting; harness_pid = some pid }

  abbrev pub change : String → (Node F → Node F) → Base F → Base F
  change env f b = record b { nodes = update env f b.nodes }

  abbrev pub ready_node : String → Option ℤ → Option String → Option (Node F) → Base F → Base F
  ready_node env pid error none b = b
  ready_node env pid (some reason) (some n) b =
      emit (event (some env) "harness.failed" reason) (change env (set_state (failed reason)) b)
  ready_node env pid none (some n) b =
      emit (event (some env) "harness.ready" "") (change env (set_state (ready pid)) b)

  unfoldable pub harness_ready : String → Option ℤ → Option String → Base F → Base F
  harness_ready env pid error b = ready_node env pid error (b.nodes env) b

  abbrev pub started : Surroundings → String → Option ℤ → Base F → Base F
  started w env none b =
      harness_ready env none (some (w.spawn_error env)) (change env (set_state booting) b)
  started w env (some pid) b =
      emit (event (some env) "harness.boot" "") (change env (with_process pid) b)

  abbrev pub boot_node : Surroundings → String → Option (Node F) → Base F → Base F
  boot_node w env none b = b
  boot_node w env (some n) b =
      let up = started w env (w.spawned env) b in if is_up n.harness then b else up

  abbrev pub boot_with : Surroundings → String → Option Value → Base F → Base F
  boot_with w env none b = emit (event (some env) "harness.failed" (w.overlay_error env)) b
  boot_with w env (some settings) b = boot_node w env (b.nodes env) b

  unfoldable pub harness_boot : Surroundings → String → Base F → Base F
  harness_boot w env b =
      let tried = boot_with w env (w.overlay env) b in
      if env == guardian || halted env b then b else tried

  -- `State::Off`, and no process.
  abbrev pub stopped : Node F → Node F
  stopped n = record n { harness = off; harness_pid = none }

  unfoldable pub harness_halt : String → Base F → Base F
  harness_halt env b = change env stopped b

  abbrev pub exited : Node F → Node F
  exited n = record n {
    harness = off;
    harness_pid = none;
    harness_restarts = suc n.harness_restarts;
  }

  abbrev pub exit_node :
      Surroundings → HostConfig F → String → ℕ → Option (Node F) → Base F → Base F
  exit_node w config env generation none b = b
  exit_node w config env generation (some n) b =
      let gone = emit (event (some env) "harness.exit" "") (change env exited b) in
      let again = harness_boot w env gone in
      if b.stopping || not (n.generation == generation) || not (has_pid n.harness_pid)
      then b
      else if leb (suc n.harness_restarts) config.max_restarts && not (halted env gone)
      then again
      else gone

  unfoldable pub harness_exit : Surroundings → HostConfig F → String → ℕ → Base F → Base F
  harness_exit w config env generation b = exit_node w config env generation (b.nodes env) b

  -- The command `Halt`, and the one at the head of the queue.
  abbrev on_halt : Halt → Base F → Base F
  on_halt h b = emit (event (some h.env) "env.halt" h.reason) (harness_halt h.env b)

  abbrev pub serve_from : List Halt → Base F → Base F
  serve_from [] b = b
  serve_from (h ∷ halts) b = on_halt h (record b { halts = halts })

  unfoldable pub serve : Base F → Base F
  serve b = serve_from b.halts b

  abbrev pub halt_all : List String → Base F → Base F
  halt_all [] b = b
  halt_all (env ∷ envs) b = halt_all envs (harness_halt env b)

  abbrev pub boot_all : Surroundings → List String → Base F → Base F
  boot_all w [] b = b
  boot_all w (env ∷ envs) b = boot_all w envs (harness_boot w env b)

  abbrev pub tell : String → Option String → String → Base F → Base F
  tell kind env reason b = notify_guardian kind reason (emit (event env kind reason) b)

  abbrev pub killed_first : String → Option String → Base F → Base F
  killed_first reason (some earlier) b = b
  killed_first reason none b = tell "kill.switch" none reason (record b { killed = some reason })

  abbrev is_registered : Option (Node F) → Bool
  is_registered none = false
  is_registered (some n) = n.registered

  abbrev pub registered : List String → Base F → List String
  registered [] b = []
  registered (env ∷ envs) b =
      if is_registered (b.nodes env) then env ∷ registered envs b else registered envs b

  abbrev pub resumed : Surroundings → String → Option String → Base F → Base F
  resumed w reason none b = b
  resumed w reason (some earlier) b =
      let open_base = tell "kill.resume" none reason (record b { killed = none }) in
      boot_all w (registered (workers open_base.envs open_base) open_base) open_base

  unfoldable pub kill_switch : Surroundings → Bool → String → Base F → Base F
  kill_switch w true reason b =
      let noted = killed_first reason b.killed b in halt_all (workers noted.envs noted) noted
  kill_switch w false reason b = resumed w reason b.killed b
