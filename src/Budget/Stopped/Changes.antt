-- ===== src/Budget/Stopped/Changes.antt =====
-- A breach, the end of the kill switch and a served command (rs/base/src/budget.rs,
-- rs/base/src/cmds.rs) keep the harnesses to the envs that may run.
use tenon.Prelude.{
  String, Bool, true, false, ◌≡◌, refl, sym, ap, subst, Option, none, some, List, [], ◌∷◌, ◌++◌,
  String_eq, arith, any, if_both,
}
use tenon.Budget.{
  Node, Base, Halt, update, emit, change_node, notify_guardian, announce, exceeded, halt_with,
  breach_reason, event,
}
use tenon.Budget.Harness.{stopped, harness_halt, serve, serve_from}
use tenon.Budget.Halted
use tenon.Budget.Stopped.{Stopped, Quiet, is_for, rebuilt}

any_grows :
    (p : Halt → Bool) (halts : List Halt) (h : Halt)
    → any p halts ≡ true
    → any p (halts ++ h ∷ []) ≡ true
any_grows p [] h e = absurd (ground (arith, e))
any_grows p (x ∷ halts) h e = ground (arith, e, any_grows p halts h)

any_last :
    (p : Halt → Bool) (halts : List Halt) (h : Halt) → p h ≡ true → any p (halts ++ h ∷ []) ≡ true
any_last p [] h e = ground (arith, e)
any_last p (x ∷ halts) h e = ground (arith, any_last p halts h e)

abbrev command : String → String → Halt
command other said = record { env = other; reason = said }

module _ {F : Type 0} where
  -- What a notice to the guardian leaves as it is.
  abbrev SameButEvents : Base F → Base F → Type 0
  SameButEvents b b' =
      (b'.envs ≡ b.envs) × (b'.nodes ≡ b.nodes) × (b'.killed ≡ b.killed) × (b'.halts ≡ b.halts)

  pub notified_same :
      (kind reason : String) (b : Base F) → SameButEvents b (notify_guardian kind reason b)
  unfolding notify_guardian
  notified_same kind reason b =
      if_both (SameButEvents b) _ _ _ (refl, refl, refl, refl) (refl, refl, refl, refl)

  idle_grown :
      (killed : Option String) (halts : List Halt) (h : Halt) (env : String) (n : Option (Node F))
      → Quiet killed halts env n
      → Quiet killed (halts ++ h ∷ []) env n
  idle_grown killed halts h env none q = refl
  idle_grown killed halts h env (some n) q = ground (arith, q, any_grows (is_for env) halts h)

  idle_halted :
      (killed : Option String) (halts : List Halt) (h : Halt) (env : String) (n : Option (Node F))
      (said : String)
      → is_for env h ≡ true
      → Quiet killed halts env n
      → Quiet killed (halts ++ h ∷ []) env (change_node (halt_with said) n)
  idle_halted killed halts h env none said hit q = refl
  idle_halted killed halts h env (some n) said hit q =
      ground (arith, q, any_last (is_for env) halts h hit)

  same-Stopped : (b b' : Base F) → SameButEvents b b' → Stopped b → Stopped b'
  same-Stopped b b' (envs, nodes, killed, halts) h =
      let at = λ (env : String). ap (λ (m : String → Option (Node F)). m env) (sym nodes) in
      record {
        quiet = λ env. cc (h.quiet env, at env, killed, halts);
        named = λ env. cc (h.named env, at env);
        listed = λ env. cc (h.listed env, at env, envs);
      }

  abbrev announced : String → String → Base F → Base F
  announced other said b = record b {
    nodes = update other (halt_with said) b.nodes;
    halts = b.halts ++ command other said ∷ [];
  }

  announces-Stopped :
      (other said : String) (b : Base F)
      → Stopped b
      → Stopped (announce other said (record b { nodes = update other (halt_with said) b.nodes }))
  unfolding announce
  announces-Stopped other said b h =
      let changed = record b { nodes = update other (halt_with said) b.nodes } in
      let emitted = emit (event (some other) "budget.exceeded" said) changed in
      let same = notified_same "budget.exceeded" said emitted in
      let grown = ap (λ (halts : List Halt). halts ++ command other said ∷ []) same.3 in
      same-Stopped (announced other said b) _ (same.0, same.1, same.2, grown)
        (rebuilt b (announced other said b) other (halt_with said) (λ n. refl) refl refl h
          (λ env.
            Halted.update_split (Quiet b.killed (announced other said b).halts env) other
              (halt_with said) b.nodes env
              (λ hit.
                idle_halted b.killed b.halts (command other said) env (b.nodes env) said hit
                  (h.quiet env))
              (λ miss.
                idle_grown b.killed b.halts (command other said) env (b.nodes env) (h.quiet env))))

  pub exceeds-Stopped :
      (other what used limit : String) (b : Base F)
      → Stopped b
      → Stopped (exceeded other what used limit b)
  unfolding exceeded
  exceeds-Stopped other what used limit b h =
      if_both Stopped _ _ _ h (announces-Stopped other (breach_reason (what, used, limit)) b h)

  idle_open :
      (killed : Option String) (halts : List Halt) (env : String) (n : Option (Node F))
      → Quiet killed halts env n
      → Quiet none halts env n
  idle_open killed halts env none q = refl
  idle_open killed halts env (some n) q = ground (arith, q)

  pub opens-Stopped : (b : Base F) → Stopped b → Stopped (record b { killed = none })
  opens-Stopped b h = record {
    quiet = λ env. idle_open b.killed b.halts env (b.nodes env) (h.quiet env);
    named = h.named;
    listed = h.listed;
  }

  idle_gone :
      (killed : Option String) (halts : List Halt) (env : String) (n : Option (Node F))
      → Quiet killed halts env (change_node stopped n)
  idle_gone killed halts env none = refl
  idle_gone killed halts env (some n) = refl

  idle_served :
      (killed : Option String) (h : Halt) (halts : List Halt) (env : String) (n : Option (Node F))
      → is_for env h ≡ false
      → Quiet killed (h ∷ halts) env n
      → Quiet killed halts env n
  idle_served killed h halts env none miss q = refl
  idle_served killed h halts env (some n) miss q = ground (arith, miss, q)

  serves_from :
      (halts : List Halt) (b : Base F) → b.halts ≡ halts → Stopped b → Stopped (serve_from halts b)
  unfolding harness_halt
  serves_from [] b at h = h
  serves_from (c ∷ halts) b at h =
      rebuilt b (serve_from (c ∷ halts) b) c.env stopped (λ n. refl) refl refl h
        (λ env.
          Halted.update_split (Quiet b.killed halts env) c.env stopped b.nodes env
            (λ hit. idle_gone b.killed halts env (b.nodes env))
            (λ miss.
              idle_served b.killed c halts env (b.nodes env) miss
                (subst (λ (hs : List Halt). Quiet b.killed hs env (b.nodes env)) at (h.quiet env))))

  pub serves-Stopped : (b : Base F) → Stopped b → Stopped (serve b)
  unfolding serve
  serves-Stopped b h = serves_from b.halts b refl h
