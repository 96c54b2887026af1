-- ===== src/Budget/Closed.antt =====
-- What the calls of Budget/Runs are made of: a property of a base that the small changes keep is kept by
-- a run.
pub mod Runs
use tenon.Prelude.{
  ℕ, String, Bool, true, false, ◌≡◌, refl, Option, none, some, List, [], ◌∷◌, ◌++◌, ◌==◌, ℕ_eq,
  String_eq, arith, not, ◌||◌, if_split, if_both,
}
use tenon.Prelude.Int.{ℤ}
use tenon.Json.{Value}
use tenon.Budget.{
  Floats, HarnessState, booting, ready, failed, Node, HostConfig, Base, Event, event, notice,
  Surroundings, guardian, emit, notify_guardian, exceeded,
}
use tenon.Budget.Accounts
use tenon.Budget.Overlay.{budgets_of, prices_of}
use tenon.Budget.Accounts.{
  halted, workers, breach_of, stop_for, check_node, check_budget, account, events_append, tick_env,
  tick_envs, tick_budgets, processes, usage_of, charged, spend, total_of, cost,
}
use tenon.Budget.Harness
use tenon.Budget.Harness.{
  change, set_state, with_process, stopped, exited, has_pid, harness_ready, harness_boot,
  harness_exit, serve, boot_all, tell, kill_switch,
}
use tenon.Budget.Runs.{Call, append, budget_tick, count, kill, boot, booted, exit, halt, step, run}

-- An event other than that of a breach.
abbrev pub plain : Event → Bool
plain (event env kind reason) = not (kind == "budget.exceeded")
plain (notice kind reason) = true

module _ {F : Type 0} where
  -- A change of a node that neither stops its budget, nor lets it go on, nor gives it a process.
  abbrev pub IsTame : (Node F → Node F) → Type 0
  IsTame f =
      (n : Node F)
      → ((f n).budget.halted ≡ n.budget.halted)
        × ((f n).role ≡ n.role)
        × (has_pid n.harness_pid ≡ false → has_pid (f n).harness_pid ≡ false)

  pub record Closed (P : Base F → Type 0) : Type 0 where
    pub says : (e : Event) (b : Base F) → plain e ≡ true → P b → P (emit e b)
    pub changes :
        (env : String) (f : Node F → Node F) (b : Base F) → IsTame f → P b → P (change env f b)
    pub starts :
        (env : String) (pid : ℤ) (b : Base F)
        → (env == guardian) ≡ false
        → halted env b ≡ false
        → P b
        → P (change env (with_process pid) b)
    pub exceeds :
        (env what used limit : String) (b : Base F) → P b → P (exceeded env what used limit b)
    pub asks : (env : String) (b : Base F) → P b → P (record b { probes = b.probes ++ env ∷ [] })
    pub kills :
        (w : Surroundings) (reason : String) (b : Base F) → P b → P (kill_switch w true reason b)
    pub opens : (b : Base F) → P b → P (record b { killed = none })
    pub serves : (b : Base F) → P b → P (serve b)

module _ (fl : Floats) (P : Base fl.Float → Type 0) (c : Closed P) where
  notified : (kind reason : String) (b : Base fl.Float) → P b → P (notify_guardian kind reason b)
  unfolding notify_guardian
  notified kind reason b h = if_both P _ _ _ (c.says (notice kind reason) b refl h) h

  checked_node :
      (w : Surroundings) (config : HostConfig fl.Float) (env : String)
      (breach : Option (String × String × String)) (b : Base fl.Float)
      → P b
      → P (stop_for fl env breach b)
  unfolding stop_for
  checked_node w config env none b h = h
  checked_node w config env (some (what, spent, limit)) b h = c.exceeds env what spent limit b h

  checked_at :
      (w : Surroundings) (config : HostConfig fl.Float) (env : String) (n : Option (Node fl.Float))
      (b : Base fl.Float)
      → P b
      → P (check_node fl w config env n b)
  checked_at w config env none b h = h
  checked_at w config env (some n) b h =
      if_both P _ _ _ h (checked_node w config env (breach_of fl w config env n) b h)

  checked :
      (w : Surroundings) (config : HostConfig fl.Float) (env : String) (b : Base fl.Float)
      → P b
      → P (check_budget fl w config env b)
  unfolding check_budget
  checked w config env b h = checked_at w config env (b.nodes env) b h

  spend-IsTame : (total : ℤ) (usd : fl.Float) → IsTame (spend fl total usd)
  spend-IsTame total usd n = (refl, refl, λ h. h)

  accounted :
      (w : Surroundings) (config : HostConfig fl.Float) (env kind : String) (body : Value)
      (b : Base fl.Float)
      → P b
      → P (account fl w config env kind body b)
  unfolding account
  accounted w config env kind body b h = if_both P _ _ _ h (
      checked w config env (charged fl w config env (usage_of body) b) (
        c.changes env _ b
          (spend-IsTame (total_of (usage_of body))
            (cost fl (prices_of fl w config env) (usage_of body)))
          h))

  appended_at :
      (w : Surroundings) (config : HostConfig fl.Float) (env kind : String) (body : Value)
      (n : Option (Node fl.Float)) (b : Base fl.Float)
      → P b
      → P (Accounts.append_to fl w config env kind body n b)
  appended_at w config env kind body none b h = h
  appended_at w config env kind body (some n) b h =
      if_both P _ _ _ (accounted w config env kind body b h) h

  ticked :
      (w : Surroundings) (config : HostConfig fl.Float) (env : String) (b : Base fl.Float)
      → P b
      → P (tick_env fl w config env b)
  unfolding tick_env
  ticked w config env b h =
      let after : P (check_budget fl w config env b) = checked w config env b h in
      if_both P _ _ _ (c.asks env (check_budget fl w config env b) after) after

  all_ticked :
      (w : Surroundings) (config : HostConfig fl.Float) (envs : List String) (b : Base fl.Float)
      → P b
      → P (tick_envs fl w config envs b)
  all_ticked w config [] b h = h
  all_ticked w config (env ∷ envs) b h = all_ticked w config envs _ (ticked w config env b h)

  counted :
      (w : Surroundings) (config : HostConfig fl.Float) (env : String) (n : ℤ) (b : Base fl.Float)
      → P b
      → P (processes fl w config env n b)
  unfolding processes
  counted w config env n b h = if_both P _ _ _ h (c.exceeds env _ _ _ b h)
