-- ===== src/Budget/Stopped/Kill.antt =====
-- The kill switch of rs/base/src/budget.rs ends every recorded harness, and what a run of the calls keeps of the
-- harnesses.
use tenon.Prelude.{
  String, Bool, true, false, ◌≡◌, refl, sym, ap, ◌∙◌, subst, Option, none, some, List, [], ◌∷◌,
  ◌==◌, String_eq, arith, not, contains, if_split, Bool-cases, inl, inr,
}
use tenon.Budget.{Halt, Floats, Node, HostConfig, Base, Surroundings, guardian, change_node}
use tenon.Budget.Accounts.{workers, has_role}
use tenon.Budget.Harness.{change, stopped, harness_halt, halt_all, killed_first, kill_switch}
use tenon.Budget.Runs.{Call, run}
use tenon.Budget.Closed.{Closed}
use tenon.Budget.Closed.Runs.{run_closed}
use tenon.Budget.Halted
use tenon.Budget.Stopped.{
  Stopped, implies, has_process, is_guardian, is_there, role_after, says-Stopped, changes-Stopped,
  starts-Stopped, may_run,
}
use tenon.Budget.Stopped.Changes.{notified_same, exceeds-Stopped, opens-Stopped, serves-Stopped}

module _ {F : Type 0} where
  labels_all :
      (envs : List String) (b : Base F) (env : String)
      → (is_guardian ((halt_all envs b).nodes env) ≡ is_guardian (b.nodes env))
        × (is_there ((halt_all envs b).nodes env) ≡ is_there (b.nodes env))
        × ((halt_all envs b).envs ≡ b.envs)
  unfolding harness_halt
  labels_all [] b env = (refl, refl, refl)
  labels_all (other ∷ envs) b env =
      let first = role_after stopped env other b.nodes (λ n. refl) in
      let rest = labels_all envs (change other stopped b) env in
      (rest.0 ∙ first.0, rest.1 ∙ first.1, rest.2)

  abbrev GoneOrListed : List String → String → Option (Node F) → Type 0
  GoneOrListed envs env n = implies (has_process n) (contains envs env) ≡ true

  gone_change :
      (envs : List String) (env : String) (n : Option (Node F))
      → GoneOrListed envs env (change_node stopped n)
  gone_change envs env none = refl
  gone_change envs env (some n) = refl

  gone_miss :
      (envs : List String) (env other : String) (n : Option (Node F))
      → other == env ≡ false
      → GoneOrListed (other ∷ envs) env n
      → GoneOrListed envs env n
  gone_miss envs env other none miss h = refl
  gone_miss envs env other (some n) miss h = ground (arith, miss, h)

  gone_last : (env : String) (n : Option (Node F)) → GoneOrListed [] env n → has_process n ≡ false
  gone_last env none h = refl
  gone_last env (some n) h = ground (arith, h)

  all_gone :
      (envs : List String) (b : Base F) (env : String)
      → GoneOrListed envs env (b.nodes env)
      → has_process ((halt_all envs b).nodes env) ≡ false
  unfolding harness_halt
  all_gone [] b env h = gone_last env (b.nodes env) h
  all_gone (other ∷ envs) b env h = all_gone envs (change other stopped b) env (
      Halted.update_split (GoneOrListed envs env) other stopped b.nodes env
        (λ hit. gone_change envs env (b.nodes env))
        (λ miss. gone_miss envs env other (b.nodes env) miss h))

  abbrev works : Option (Node F) → Bool
  works n = has_role (λ (r : String). not (r == guardian)) n

  -- An env with a node that is no guardian is among the workers.
  worker_listed :
      (envs : List String) (b : Base F) (env : String)
      → works (b.nodes env) ≡ true
      → contains envs env ≡ true
      → contains (workers envs b) env ≡ true
  worker_listed [] b env there listed = absurd (ground (arith, listed))
  worker_listed (other ∷ envs) b env there listed =
      if_split (λ (l : List String). contains l env ≡ true) (works (b.nodes other))
        (other ∷ workers envs b) (workers envs b)
        (λ e. elim (Bool-cases (other == env)) [
          | inl hit ↦ ground (arith, hit)
          | inr miss ↦ ground (arith, miss, listed, worker_listed envs b env there)
        ])
        (λ e. elim (Bool-cases (other == env)) [
          | inl hit ↦
              let same = (String_eq.beq_iff other env).0 hit in
              absurd (ground (arith, e, there, ap (λ (k : String). works (b.nodes k)) same))
          | inr miss ↦ worker_listed envs b env there (ground (arith, miss, listed))
        ])

  guardian_gone :
      (env : String) (n : Option (Node F)) (killed : Option String) (halts : List Halt)
      → is_guardian n ≡ true
      → implies (has_process n) (may_run killed halts env n) ≡ true
      → implies (is_guardian n) (env == guardian) ≡ true
      → has_process n ≡ false
  guardian_gone env none killed halts role quiet named = refl
  guardian_gone env (some n) killed halts role quiet named = ground (arith, role, quiet, named)

  works_unless : (n : Option (Node F)) → is_there n ≡ true → is_guardian n ≡ false → works n ≡ true
  works_unless none there role = absurd (ground (arith, there))
  works_unless (some n) there role = ground (arith, role)

  process_there : (n : Option (Node F)) → has_process n ≡ true → is_there n ≡ true
  process_there none h = absurd (ground (arith, h))
  process_there (some n) h = refl

  covered :
      (b : Base F) → Stopped b → (env : String) → GoneOrListed (workers b.envs b) env (b.nodes env)
  covered b h env = elim (Bool-cases (has_process (b.nodes env))) [
    | inr gone ↦ ground (arith, gone)
    | inl up ↦
        let there = process_there (b.nodes env) up in
        elim (Bool-cases (is_guardian (b.nodes env))) [
          | inl role ↦ absurd (
              ground (
                arith,
                up,
                guardian_gone env (b.nodes env) b.killed b.halts role (h.quiet env) (h.named env),
              ))
          | inr role ↦ ground (
            arith,
            up,
            worker_listed b.envs b env (works_unless (b.nodes env) there role)
                (ground (arith, h.listed env, there)),
          )
        ]
  ]

  -- What the switch notes before it halts: the reason, an event and a notice.
  noted_same :
      (said : String) (killed : Option String) (b : Base F)
      → ((killed_first said killed b).nodes ≡ b.nodes)
        × ((killed_first said killed b).envs ≡ b.envs)
  noted_same said none b = let same = notified_same "kill.switch" said _ in (same.1, same.0)
  noted_same said (some earlier) b = (refl, refl)

  listed_same :
      (envs : List String) (b b' : Base F) → b'.nodes ≡ b.nodes → workers envs b' ≡ workers envs b
  listed_same [] b b' same = refl
  listed_same (env ∷ envs) b b' same =
      grind (
        arith,
        listed_same envs b b' same,
        ap (λ (m : String → Option (Node F)). works (m env)) same,
      )

  noted_covered :
      (said : String) (b : Base F)
      → Stopped b
      → (env : String)
      → GoneOrListed
          (workers (killed_first said b.killed b).envs (killed_first said b.killed b))
          env
          ((killed_first said b.killed b).nodes env)
  noted_covered said b h env =
      let noted = killed_first said b.killed b in
      let same = noted_same said b.killed b in
      let names : workers noted.envs noted ≡ workers b.envs b =
        ap (λ (envs : List String). workers envs noted) same.1
        ∙ listed_same b.envs b noted same.0 in
      let at = ap (λ (m : String → Option (Node F)). m env) same.0 in
      subst (λ (l : List String). GoneOrListed l env (noted.nodes env)) (sym names)
        (subst (GoneOrListed (workers b.envs b) env) (sym at) (covered b h env))

  -- With the switch on, no env has a harness process on record.
  kill_gone :
      (w : Surroundings) (said : String) (b : Base F)
      → Stopped b
      → (env : String) → has_process ((kill_switch w true said b).nodes env) ≡ false
  unfolding kill_switch
  kill_gone w said b h env =
      let noted = killed_first said b.killed b in
      all_gone (workers noted.envs noted) noted env (noted_covered said b h env)

  kills-Stopped :
      (w : Surroundings) (said : String) (b : Base F)
      → Stopped b
      → Stopped (kill_switch w true said b)
  unfolding kill_switch
  kills-Stopped w said b h =
      let noted = killed_first said b.killed b in
      let same = noted_same said b.killed b in
      let labels = labels_all (workers noted.envs noted) noted in
      let at = λ (env : String). ap (λ (m : String → Option (Node F)). m env) same.0 in
      record {
        quiet = λ env. ground (arith, kill_gone w said b h env);
        named = λ env. cc (h.named env, at env, (labels env).0);
        listed = λ env. cc (h.listed env, at env, (labels env).1, (labels env).2, same.1);
      }

  Stopped-Closed : Closed (Stopped {F = F})
  Stopped-Closed = record {
    says = λ e b plain h. says-Stopped e b h;
    changes = changes-Stopped;
    starts = starts-Stopped;
    exceeds = exceeds-Stopped;
    asks = λ env b h. record { quiet = h.quiet; named = h.named; listed = h.listed };
    kills = kills-Stopped;
    opens = opens-Stopped;
    serves = serves-Stopped;
  }

  no_process :
      (env : String) (n : Option (Node F)) (killed : Option String) (halts : List Halt)
      → implies (has_process n) (may_run killed halts env n) ≡ true
      → may_run killed halts env n ≡ false
      → has_process n ≡ false
  no_process env none killed halts h idle = refl
  no_process env (some n) killed halts h idle = ground (arith, h, idle)

module _ (fl : Floats) where
  -- After every run of calls (none of which starts or resets an env) from a base in which it is so: a
  -- process is recorded as an env's harness only if that env may run. Under the kill switch none is
  -- recorded, for the guardian none is, and for an env that is halted none is as soon as no command
  -- to halt it waits in the queue. What is recorded is the pid in the env's node: a process whose
  -- probe failed and whose pid a later boot has replaced is not spoken of.
  pub run-Stopped :
      (config : HostConfig fl.Float) (calls : List (Surroundings × Call)) (b : Base fl.Float)
      → Stopped b
      → Stopped (run fl config calls b)
        × ((env : String)
            → may_run
                (run fl config calls b).killed
                (run fl config calls b).halts
                env
                ((run fl config calls b).nodes env)
              ≡ false
            → has_process ((run fl config calls b).nodes env) ≡ false)
  run-Stopped config calls b h =
      let after = run_closed fl Stopped Stopped-Closed config calls b h in
      let b' = run fl config calls b in
      (after, λ env idle. no_process env (b'.nodes env) b'.killed b'.halts (after.quiet env) idle)
