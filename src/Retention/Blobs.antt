-- ===== src/Retention/Blobs.antt =====
-- The blobs that a pass of rs/storage/src/retain.rs leaves.
use tenon.Prelude.{
  ℕ, String, Bool, true, false, ◌||◌, not, ◌≡◌, ap, ◌∙◌, List, [], ◌∷◌, ◌==◌, String_eq, retain,
  any, is_empty, if_both, arith, Bool-cases, inl, inr,
}
use tenon.Prelude.Int.{ℤ, pos, ◌-ℤ◌, leb_ℤ, ltb_ℤ, max_ℤ}
use tenon.Retention.{
  Retention, Tables, Blob, stage, prune_packs, prune_snapshots, prune_events, prune_results,
  prune_blobs, prune_envelopes, prune_steps, prune_window, retain_pass, referenced, doomed,
  greatest, steps_of,
}

abbrev pub has_blob : String → List Blob → Bool
has_blob hash blobs = any (λ (b : Blob). b.sha256 == hash) blobs

stage_holds :
    (P : Tables → Type 0) (works : Bool) (f : Tables → Tables) (p : Bool × Tables)
    → ((t : Tables) → P t → P (f t))
    → P p.1
    → P (stage works f p).1
stage_holds P works f (false, t) step h = h
stage_holds P works f (true, t) step h =
    if_both (λ (q : Bool × Tables). P q.1) works (true, f t) (false, t) (step t h) h

module _ (hash : String) where
  abbrev Has : Tables → Type 0
  Has t = has_blob hash t.blobs ≡ true

  steps_hold :
      (works : ℕ → Bool) (steps : List ℤ) (t : Tables)
      → Has t
      → Has (prune_steps works steps (true, t)).1
  steps_hold works steps t h =
      if_both (λ (q : Bool × Tables). Has q.1) (is_empty steps) (true, t)
        (stage (works 1) (prune_snapshots steps) (stage (works 0) (prune_packs steps) (true, t))) h
        (stage_holds Has (works 1) (prune_snapshots steps)
          (stage (works 0) (prune_packs steps) (true, t)) (λ u k. k)
          (stage_holds Has (works 0) (prune_packs steps) (true, t) (λ u k. k) h))

  window_holds :
      (works : ℕ → Bool) (policy : Retention) (p : Bool × Tables)
      → Has p.1
      → Has (prune_window works policy p).1
  window_holds works policy (sound, t) h =
      let last = greatest t.events -ℤ policy.keep_events in
      if_both (λ (q : Bool × Tables). Has q.1) (ltb_ℤ (pos 0) policy.keep_events)
        (stage (works 3) prune_results (stage (works 2) (prune_events last) (sound, t))) (sound, t)
        (stage_holds Has (works 3) prune_results (stage (works 2) (prune_events last) (sound, t))
          (λ u k. k) (stage_holds Has (works 2) (prune_events last) (sound, t) (λ u k. k) h))
        h

  -- A blob that passes the test for its own hash stays.
  kept_blob :
      (p : Blob → Bool) (blobs : List Blob)
      → ((b : Blob) → b.sha256 ≡ hash → p b ≡ true)
      → has_blob hash blobs ≡ true
      → has_blob hash (retain p blobs) ≡ true
  kept_blob p [] passes h = h
  kept_blob p (b ∷ blobs) passes h = elim (Bool-cases (b.sha256 == hash)) [
    | inl hit ↦ ground (arith, hit, passes b ((String_eq.beq_iff b.sha256 hash).0 hit))
    | inr miss ↦ ground (arith, miss, h, kept_blob p blobs passes)
  ]

  -- What is referenced is there.
  abbrev Safe : Tables → Type 0
  Safe t = referenced hash t.tool_results ≡ true → has_blob hash t.blobs ≡ true

  blobs-Safe : (cutoff : ℤ) (t : Tables) → Safe t → Safe (prune_blobs cutoff t)
  blobs-Safe cutoff t safe named =
      kept_blob
        (λ (b : Blob). not (leb_ℤ b.created_at cutoff) || referenced b.sha256 t.tool_results)
        t.blobs
        (λ b same.
          let reached = ap (λ (h : String). referenced h t.tool_results) same ∙ named in
          ground (arith, reached))
        (safe named)

-- Whatever statements fail: a blob that is there before a pass, and that a tool result which is left
-- after the pass names, is there after it.
pub retain-Safe :
    (works : ℕ → Bool) (now : ℤ) (policy : Retention) (t : Tables) (hash : String)
    → has_blob hash t.blobs ≡ true
    → referenced hash (retain_pass works now policy t).1.tool_results ≡ true
    → has_blob hash (retain_pass works now policy t).1.blobs ≡ true
unfolding retain_pass
retain-Safe works now policy t hash there =
    let steps = doomed policy (greatest (steps_of t.packs)) t.packs in
    let cutoff = now -ℤ max_ℤ policy.blob_grace_ms (pos 0) in
    let pruned = prune_window works policy (prune_steps works steps (true, t)) in
    let held =
      window_holds hash works policy (prune_steps works steps (true, t))
        (steps_hold hash works steps t there) in
    stage_holds (Safe hash) (works 5) (prune_envelopes now)
      (stage (works 4) (prune_blobs cutoff) pruned) (λ u k. k)
      (stage_holds (Safe hash) (works 4) (prune_blobs cutoff) pruned (blobs-Safe hash cutoff)
        (λ named. held))
