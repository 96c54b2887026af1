-- ===== src/Budget/Stopped.antt =====
-- The harnesses of stopped envs (rs/base/src/harness.rs, rs/base/src/budget.rs): which envs can have a
-- harness process on record (`harness_pid` of the node), along a run.
pub mod Changes
pub mod Kill
use tenon.Prelude.{
  ℕ, String, Bool, true, false, ◌≡◌, refl, sym, ap, ◌∙◌, subst, Option, none, some, List, [], ◌∷◌,
  ◌++◌, ◌==◌, String_eq, arith, not, ◌||◌, ◌&&◌, any, contains, if◌then◌else◌, if_split, if_both,
}
use tenon.Prelude.Int.{ℤ}
use tenon.Budget.{
  Floats, Node, HostConfig, Base, Halt, Event, Surroundings, guardian, is_set, is_halted, update,
  emit, change_node, notify_guardian, announce, exceeded, halt_with, breach_reason, event,
}
use tenon.Budget.Accounts.{halted, workers, has_role}
use tenon.Budget.Harness.{
  change, with_process, stopped, harness_halt, serve, serve_from, halt_all, killed_first,
  kill_switch, has_pid,
}
use tenon.Budget.Runs.{Call, run}
use tenon.Budget.Closed.{Closed, IsTame}
use tenon.Budget.Halted

abbrev pub is_for : String → Halt → Bool
is_for env h = h.env == env

abbrev pub implies : Bool → Bool → Bool
implies true b = b
implies false b = true

module _ {F : Type 0} where
  abbrev pub has_process : Option (Node F) → Bool
  has_process none = false
  has_process (some n) = has_pid n.harness_pid

  -- A recorded process is that of an env that may run, or that a queued command will stop.
  abbrev pub may_run : Option String → List Halt → String → Option (Node F) → Bool
  may_run killed halts env n =
      not (is_set killed) && not (env == guardian) && (not (is_halted n) || any (is_for env) halts)

  abbrev pub is_guardian : Option (Node F) → Bool
  is_guardian none = false
  is_guardian (some n) = n.role == guardian

  abbrev pub is_there : Option (Node F) → Bool
  is_there none = false
  is_there (some n) = true

  -- Every recorded process is of such an env; the envs with a node are listed, and only the guardian has its role.
  pub record Stopped (b : Base F) : Type 0 where
    pub quiet :
        (env : String)
        → implies (has_process (b.nodes env)) (may_run b.killed b.halts env (b.nodes env)) ≡ true
    pub named : (env : String) → implies (is_guardian (b.nodes env)) (env == guardian) ≡ true
    pub listed : (env : String) → implies (is_there (b.nodes env)) (contains b.envs env) ≡ true

  abbrev pub Quiet : Option String → List Halt → String → Option (Node F) → Type 0
  Quiet killed halts env n = implies (has_process n) (may_run killed halts env n) ≡ true

  idle_tame :
      (f : Node F → Node F)
      → IsTame f
      → (killed : Option String) (halts : List Halt) (env : String) (n : Option (Node F))
      → Quiet killed halts env n
      → Quiet killed halts env (change_node f n)
  idle_tame f tame killed halts env none h = h
  idle_tame f tame killed halts env (some n) h = ground (arith, tame n, h)

  idle_after :
      (killed : Option String) (halts : List Halt) (env other : String) (f : Node F → Node F)
      (nodes : String → Option (Node F))
      → IsTame f
      → Quiet killed halts env (nodes env)
      → Quiet killed halts env (update other f nodes env)
  idle_after killed halts env other f nodes tame h =
      Halted.update_split (Quiet killed halts env) other f nodes env
        (λ hit. idle_tame f tame killed halts env (nodes env) h) (λ miss. h)

  -- A change that keeps the roles of the nodes keeps which ones are there.
  abbrev KeepsRole : (Node F → Node F) → Type 0
  KeepsRole f = (n : Node F) → (f n).role ≡ n.role

  role_after :
      (f : Node F → Node F) (env other : String) (nodes : String → Option (Node F))
      → KeepsRole f
      → (is_guardian (update other f nodes env) ≡ is_guardian (nodes env))
        × (is_there (update other f nodes env) ≡ is_there (nodes env))
  role_after f env other nodes keeps =
      Halted.update_split
        (λ (n : Option (Node F)).
          (is_guardian n ≡ is_guardian (nodes env)) × (is_there n ≡ is_there (nodes env)))
        other f nodes env (λ hit. role_change (nodes env)) (λ miss. (refl, refl))
    where
      role_change :
          (n : Option (Node F))
          → (is_guardian (change_node f n) ≡ is_guardian n)
            × (is_there (change_node f n) ≡ is_there n)
      role_change none = (refl, refl)
      role_change (some n) = (ap (λ (r : String). r == guardian) (keeps n), refl)

  -- A base in which only the nodes, the switch and the commands differ.
  rebuilt :
      (b b' : Base F) (other : String) (f : Node F → Node F)
      → KeepsRole f
      → b'.envs ≡ b.envs
      → b'.nodes ≡ update other f b.nodes
      → Stopped b
      → ((env : String) → Quiet b'.killed b'.halts env (b'.nodes env))
      → Stopped b'
  rebuilt b b' other f keeps envs nodes h quiet = record {
    quiet = quiet;
    named = λ env.
        (let same = ap (λ (m : String → Option (Node F)). is_guardian (m env)) nodes in
          let role = (role_after f env other b.nodes keeps).0 in
          subst (λ (g : Bool). implies g (env == guardian) ≡ true) (sym (same ∙ role))
            (h.named env));
    listed = λ env.
        (let same = ap (λ (m : String → Option (Node F)). is_there (m env)) nodes in
          let there = (role_after f env other b.nodes keeps).1 in
          subst (λ (g : Bool). implies g (contains b'.envs env) ≡ true) (sym (same ∙ there))
            (subst
              (λ (envs : List String). implies (is_there (b.nodes env)) (contains envs env) ≡ true)
              (sym envs) (h.listed env)));
  }

  says-Stopped : (e : Event) (b : Base F) → Stopped b → Stopped (emit e b)
  says-Stopped e b h = record { quiet = h.quiet; named = h.named; listed = h.listed }

  changes-Stopped :
      (env : String) (f : Node F → Node F) (b : Base F)
      → IsTame f
      → Stopped b
      → Stopped (change env f b)
  changes-Stopped other f b tame h =
      rebuilt b (change other f b) other f (λ n. (tame n).1) refl refl h
        (λ env. idle_after b.killed b.halts env other f b.nodes tame (h.quiet env))

  idle_process :
      (env : String) (pid : ℤ) (killed : Option String) (halts : List Halt) (n : Option (Node F))
      → (env == guardian) ≡ false
      → (is_set killed || is_halted n) ≡ false
      → Quiet killed halts env (change_node (with_process pid) n)
  idle_process env pid killed halts none named free = refl
  idle_process env pid killed halts (some n) named free = ground (arith, named, free)

  starts-Stopped :
      (env : String) (pid : ℤ) (b : Base F)
      → (env == guardian) ≡ false
      → halted env b ≡ false
      → Stopped b
      → Stopped (change env (with_process pid) b)
  starts-Stopped other pid b named free h =
      rebuilt b (change other (with_process pid) b) other (with_process pid) (λ n. refl) refl refl h
        (λ env.
          Halted.update_split (Quiet b.killed b.halts env) other (with_process pid) b.nodes env
            (λ hit.
              let same = (String_eq.beq_iff other env).0 hit in
              subst (λ k. Quiet b.killed b.halts k (change_node (with_process pid) (b.nodes k)))
                same (idle_process other pid b.killed b.halts (b.nodes other) named free))
            (λ miss. h.quiet env))
