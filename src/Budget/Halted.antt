-- ===== src/Budget/Halted.antt =====
-- The stop of an env's budget along a run: it stays, with its reason, and every prompt is refused.
use tenon.Prelude.{
  String, true, false, ◌≡◌, ◌≢◌, refl, ap, ◌∙◌, Option, none, some, List, [], ◌∷◌, ◌==◌, ℕ_eq,
  String_eq, arith, if◌then◌else◌, if_split, if_both, err, Option-cases, inl, inr,
}
use tenon.Prelude.Int.{ℤ}
use tenon.Text.{◌<>◌}
use tenon.Budget.{
  Floats, Node, HostConfig, Base, Halt, Surroundings, breach_reason, change_node, is_halted, update,
  notify_guardian, announce, exceeded, halt_with,
}
use tenon.Budget.Accounts.{halted_reason, allow_prompt, workers}
use tenon.Budget.Harness.{
  change, with_process, stopped, harness_halt, serve, serve_from, halt_all, killed_first,
  kill_switch,
}
use tenon.Budget.Runs.{Call, run}
use tenon.Budget.Closed.{Closed, IsTame}
use tenon.Budget.Closed.Runs.{run_closed}

module _ {F : Type 0} where
  -- The budget of `env` is stopped for the reason.
  abbrev pub HaltedFor : String → String → Base F → Type 0
  HaltedFor env reason b = halted_reason (b.nodes env) ≡ some reason

  notified_nodes :
      (kind reason : String) (b : Base F) → (notify_guardian kind reason b).nodes ≡ b.nodes
  unfolding notify_guardian
  notified_nodes kind reason b = if_both (λ (m : Base F). m.nodes ≡ b.nodes) _ _ _ refl refl

  pub update_split {κ} :
      (P : Option (Node F) → Type κ) (env : String) (f : Node F → Node F)
      (nodes : String → Option (Node F)) (other : String)
      → (env == other ≡ true → P (change_node f (nodes other)))
      → (env == other ≡ false → P (nodes other))
      → P (update env f nodes other)
  unfolding update
  update_split P env f nodes other hit miss = if_split P (env == other) _ _ hit miss

  tame_change :
      (f : Node F → Node F)
      → IsTame f
      → (n : Option (Node F)) → halted_reason (change_node f n) ≡ halted_reason n
  tame_change f tame none = refl
  tame_change f tame (some n) = (tame n).0

  tame_node :
      (f : Node F → Node F)
      → IsTame f
      → (env other : String) (nodes : String → Option (Node F))
      → halted_reason (update other f nodes env) ≡ halted_reason (nodes env)
  tame_node f tame env other nodes =
      update_split (λ (n : Option (Node F)). halted_reason n ≡ halted_reason (nodes env)) other f
        nodes env (λ hit. tame_change f tame (nodes env)) (λ miss. refl)

  process_change :
      (pid : ℤ) (n : Option (Node F))
      → halted_reason (change_node (with_process pid) n) ≡ halted_reason n
  process_change pid none = refl
  process_change pid (some n) = refl

  module _ (env reason : String) where
    is_halted_env : (n : Option (Node F)) → halted_reason n ≡ some reason → is_halted n ≡ true
    is_halted_env none h = absurd (ground (arith, h))
    is_halted_env (some n) h = ground (arith, h)

    abbrev Stays : Option (Node F) → Type 0
    Stays n = halted_reason n ≡ some reason

    abbrev In : (String → Option (Node F)) → Type 0
    In nodes = halted_reason (nodes env) ≡ some reason

    same_nodes : {nodes nodes' : String → Option (Node F)} → nodes' ≡ nodes → In nodes → In nodes'
    same_nodes same h = ap (λ nodes. halted_reason (nodes env)) same ∙ h

    starts_halted :
        (other : String) (pid : ℤ) (b : Base F)
        → HaltedFor env reason b
        → HaltedFor env reason (change other (with_process pid) b)
    starts_halted other pid b h =
        update_split (λ (n : Option (Node F)). halted_reason n ≡ some reason) other
          (with_process pid) b.nodes env (λ hit. process_change pid (b.nodes env) ∙ h) (λ miss. h)

    announced_nodes : (other said : String) (b : Base F) → (announce other said b).nodes ≡ b.nodes
    unfolding announce
    announced_nodes other said b = notified_nodes "budget.exceeded" said _

    pub nodes_after :
        (other what used limit : String) (b : Base F)
        → (exceeded other what used limit b).nodes ≡ (
            if is_halted (b.nodes other)
            then b.nodes
            else update other (halt_with (breach_reason (what, used, limit))) b.nodes)
    unfolding exceeded
    nodes_after other what used limit b = grind (arith, announced_nodes)

    halted_clash : (n : Option (Node F)) → is_halted n ≡ false → halted_reason n ≢ some reason
    halted_clash none e h = ground (arith, h)
    halted_clash (some n) e h = ground (arith, e, h)

    pub exceeds_halted :
        (other what used limit : String) (b : Base F)
        → HaltedFor env reason b
        → HaltedFor env reason (exceeded other what used limit b)
    exceeds_halted other what used limit b h =
        let stopping = halt_with (breach_reason (what, used, limit)) in
        same_nodes (nodes_after other what used limit b) (
          if_split In (is_halted (b.nodes other)) b.nodes (update other stopping b.nodes) (λ e. h)
            (λ e.
              update_split Stays other stopping b.nodes env
                (λ hit.
                  let same = (String_eq.beq_iff other env).0 hit in
                  absurd
                    (halted_clash (b.nodes other) e (ap (λ k. halted_reason (b.nodes k)) same ∙ h)))
                (λ miss. h)))

    tame_halted :
        (other : String) (f : Node F → Node F) (b : Base F)
        → IsTame f
        → HaltedFor env reason b
        → HaltedFor env reason (change other f b)
    tame_halted other f b tame h = tame_node f tame env other b.nodes ∙ h

    stopped-IsTame : IsTame (stopped {F = F})
    stopped-IsTame n = (refl, refl, λ h. refl)

    halt_all-HaltedFor :
        (envs : List String) (b : Base F)
        → HaltedFor env reason b
        → HaltedFor env reason (halt_all envs b)
    unfolding harness_halt
    halt_all-HaltedFor [] b h = h
    halt_all-HaltedFor (other ∷ envs) b h =
        halt_all-HaltedFor envs _ (tame_halted other stopped b stopped-IsTame h)

    noted_nodes :
        (said : String) (killed : Option String) (b : Base F)
        → (killed_first said killed b).nodes ≡ b.nodes
    noted_nodes said none b = notified_nodes "kill.switch" said _
    noted_nodes said (some earlier) b = refl

    kills_halted :
        (w : Surroundings) (said : String) (b : Base F)
        → HaltedFor env reason b
        → HaltedFor env reason (kill_switch w true said b)
    unfolding kill_switch
    kills_halted w said b h =
        let noted = killed_first said b.killed b in
        halt_all-HaltedFor (workers noted.envs noted) noted
          (same_nodes (noted_nodes said b.killed b) h)

    serves_from :
        (halts : List Halt) (b : Base F)
        → HaltedFor env reason b
        → HaltedFor env reason (serve_from halts b)
    unfolding harness_halt
    serves_from [] b h = h
    serves_from (halt ∷ halts) b h = tame_halted halt.env stopped b stopped-IsTame h

    serves_halted : (b : Base F) → HaltedFor env reason b → HaltedFor env reason (serve b)
    unfolding serve
    serves_halted b h = serves_from b.halts b h

    HaltedFor-Closed : Closed (HaltedFor env reason)
    HaltedFor-Closed = record {
      says = λ e b plain h. h;
      changes = λ other f b tame h. tame_halted other f b tame h;
      starts = λ other pid b named free h. starts_halted other pid b h;
      exceeds = exceeds_halted;
      asks = λ other b h. h;
      kills = kills_halted;
      opens = λ b h. h;
      serves = serves_halted;
    }

    refused :
        (b : Base F) → HaltedFor env reason b → (said : String) × (allow_prompt env b ≡ err said)
    unfolding allow_prompt
    refused b h = elim (Option-cases b.killed) [
      | inl free ↦ ("env " <> env <> " is halted: " <> reason, ground (arith, h, free))
      | inr found ↦ ("the kill switch is on: " <> found.0, ground (arith, found.1))
    ]

module _ (fl : Floats) where
  -- Once an env's budget is stopped for a reason, it is stopped for that reason after every run of calls
  -- (none of which is a reset), and every prompt of the env is refused.
  pub run_refused :
      (config : HostConfig fl.Float) (calls : List (Surroundings × Call)) (env reason : String)
      (b : Base fl.Float)
      → HaltedFor env reason b
      → HaltedFor env reason (run fl config calls b)
        × ((said : String) × (allow_prompt env (run fl config calls b) ≡ err said))
  run_refused config calls env reason b h =
      let after =
        run_closed fl (HaltedFor env reason) (HaltedFor-Closed env reason) config calls b h in
      (after, refused env reason (run fl config calls b) after)
