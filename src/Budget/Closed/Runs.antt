-- ===== src/Budget/Closed/Runs.antt =====
-- The calls to the harnesses (rs/base/src/harness.rs), and a run of all calls: each keeps what the small
-- changes keep.
use tenon.Prelude.{
  ℕ, String, true, false, ◌≡◌, refl, Option, none, some, List, [], ◌∷◌, ◌==◌, ℕ_eq, String_eq,
  arith, ◌||◌, if_split, if_both,
}
use tenon.Prelude.Int.{ℤ}
use tenon.Json.{Value}
use tenon.Budget.{
  Floats, HarnessState, booting, ready, failed, Node, HostConfig, Base, event, Surroundings,
  guardian, emit,
}
use tenon.Budget.Accounts.{halted, workers, events_append, tick_budgets}
use tenon.Budget.Harness
use tenon.Budget.Harness.{
  change, set_state, with_process, stopped, exited, has_pid, harness_ready, harness_boot,
  harness_exit, serve, boot_all, tell, kill_switch,
}
use tenon.Budget.Runs.{Call, append, budget_tick, count, kill, boot, booted, exit, halt, step, run}
use tenon.Budget.Closed.{Closed, IsTame, notified, appended_at, all_ticked, counted}

module _ (fl : Floats) (P : Base fl.Float → Type 0) (c : Closed P) where
  set_state-IsTame : (s : HarnessState) → IsTame (set_state {F = fl.Float} s)
  set_state-IsTame s n = (refl, refl, λ h. h)

  stopped-IsTame : IsTame (stopped {F = fl.Float})
  stopped-IsTame n = (refl, refl, λ h. refl)

  exited-IsTame : IsTame (exited {F = fl.Float})
  exited-IsTame n = (refl, refl, λ h. refl)

  readied_at :
      (env : String) (pid : Option ℤ) (error : Option String) (n : Option (Node fl.Float))
      (b : Base fl.Float)
      → P b
      → P (Harness.ready_node env pid error n b)
  readied_at env pid error none b h = h
  readied_at env pid (some reason) (some n) b h =
      c.says _ _ refl (c.changes env _ b (set_state-IsTame (failed reason)) h)
  readied_at env pid none (some n) b h =
      c.says _ _ refl (c.changes env _ b (set_state-IsTame (ready pid)) h)

  readied :
      (env : String) (pid : Option ℤ) (error : Option String) (b : Base fl.Float)
      → P b
      → P (harness_ready env pid error b)
  unfolding harness_ready
  readied env pid error b h = readied_at env pid error (b.nodes env) b h

  started_at :
      (w : Surroundings) (env : String) (pid : Option ℤ) (b : Base fl.Float)
      → (env == guardian) ≡ false
      → halted env b ≡ false
      → P b
      → P (Harness.started w env pid b)
  started_at w env none b hg hh h =
      readied env none (some (w.spawn_error env)) _ (c.changes env _ b (set_state-IsTame booting) h)
  started_at w env (some pid) b hg hh h = c.says _ _ refl (c.starts env pid b hg hh h)

  booted_node :
      (w : Surroundings) (env : String) (n : Option (Node fl.Float)) (b : Base fl.Float)
      → (env == guardian) ≡ false
      → halted env b ≡ false
      → P b
      → P (Harness.boot_node w env n b)
  booted_node w env none b hg hh h = h
  booted_node w env (some n) b hg hh h =
      if_both P _ _ _ h (started_at w env (w.spawned env) b hg hh h)

  booted_with :
      (w : Surroundings) (env : String) (overlay : Option Value) (b : Base fl.Float)
      → (env == guardian) ≡ false
      → halted env b ≡ false
      → P b
      → P (Harness.boot_with w env overlay b)
  booted_with w env none b hg hh h = c.says _ b refl h
  booted_with w env (some settings) b hg hh h = booted_node w env (b.nodes env) b hg hh h

  harness_booted :
      (w : Surroundings) (env : String) (b : Base fl.Float) → P b → P (harness_boot w env b)
  unfolding harness_boot
  harness_booted w env b h =
      if_split P (env == guardian || halted env b) b (Harness.boot_with w env (w.overlay env) b)
        (λ e. h) (λ e. booted_with w env (w.overlay env) b (ground arith) (ground arith) h)

  exited_at :
      (w : Surroundings) (config : HostConfig fl.Float) (env : String) (generation : ℕ)
      (n : Option (Node fl.Float)) (b : Base fl.Float)
      → P b
      → P (Harness.exit_node w config env generation n b)
  exited_at w config env generation none b h = h
  exited_at w config env generation (some n) b h =
      let gone : P (emit (event (some env) "harness.exit" "") (change env exited b)) =
        c.says _ _ refl (c.changes env _ b exited-IsTame h) in
      if_both P _ _ _ h (if_both P _ _ _ (harness_booted w env _ gone) gone)

  all_booted :
      (w : Surroundings) (envs : List String) (b : Base fl.Float) → P b → P (boot_all w envs b)
  all_booted w [] b h = h
  all_booted w (env ∷ envs) b h = all_booted w envs _ (harness_booted w env b h)

  resumed_at :
      (w : Surroundings) (reason : String) (killed : Option String) (b : Base fl.Float)
      → P b
      → P (Harness.resumed w reason killed b)
  resumed_at w reason none b h = h
  resumed_at w reason (some earlier) b h =
      let open_base = tell "kill.resume" none reason (record b { killed = none }) in
      all_booted w (Harness.registered (workers open_base.envs open_base) open_base) open_base (
        notified fl P c "kill.resume" reason _
          (c.says (event none "kill.resume" reason) _ refl (c.opens b h)))

  step_closed :
      (config : HostConfig fl.Float) (w : Surroundings) (call : Call) (b : Base fl.Float)
      → P b
      → P (step fl config w call b)
  unfolding events_append tick_budgets kill_switch harness_exit
  step_closed config w (append env kind body) b h =
      appended_at fl P c w config env kind body (b.nodes env) b h
  step_closed config w budget_tick b h = all_ticked fl P c w config (workers b.envs b) b h
  step_closed config w (count env n) b h = counted fl P c w config env n b h
  step_closed config w (kill true reason) b h = c.kills w reason b h
  step_closed config w (kill false reason) b h = resumed_at w reason b.killed b h
  step_closed config w (boot env) b h = harness_booted w env b h
  step_closed config w (booted env pid error) b h = readied env pid error b h
  step_closed config w (exit env generation) b h =
      exited_at w config env generation (b.nodes env) b h
  step_closed config w halt b h = c.serves b h

  pub run_closed :
      (config : HostConfig fl.Float) (calls : List (Surroundings × Call)) (b : Base fl.Float)
      → P b
      → P (run fl config calls b)
  run_closed config [] b h = h
  run_closed config ((w, call) ∷ calls) b h =
      run_closed config calls _ (step_closed config w call b h)
