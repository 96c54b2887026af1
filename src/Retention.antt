-- ===== src/Retention.antt =====
-- The retention pass over an env's state file (`retain` of rs/storage/src/retain.rs) with the tables that
-- it reads and prunes. The columns that it does not read are left out. Its statements are no transaction:
-- `works i` tells whether the i-th succeeds, and the pass ends at the first that does not.
pub mod Packs
pub mod Blobs
pub mod Tests
use tenon.Prelude.{
  ℕ, suc, ◌%◌, String, Bool, true, false, ◌&&◌, ◌||◌, not, Option, none, some, List, [], ◌∷◌, ◌==◌,
  ℕ_eq, String_eq, retain, contains, any, is_empty, ltb, if◌then◌else◌,
}
use tenon.Prelude.Int.{ℤ, pos, negsuc, ◌+ℤ◌, ◌-ℤ◌, ◌*ℤ◌, leb_ℤ, ltb_ℤ, max_ℤ}

pub record Retention : Type 0 where
  pub keep_steps : ℤ
  pub milestone_every : ℤ
  pub keep_refs : List String
  pub keep_events : ℤ
  pub blob_grace_ms : ℤ

-- A row of `packs` or of `snapshots`, by its step and its reference.
pub record Pack : Type 0 where
  pub step : ℤ
  pub reference : String

pub record ToolResult : Type 0 where
  pub event_id : ℤ
  pub blob_hash : Option String

pub record Blob : Type 0 where
  pub sha256 : String
  pub created_at : ℤ

pub record Stored : Type 0 where
  pub ts : ℤ
  pub ttl_s : Option ℤ

pub record Tables : Type 0 where
  pub packs : List Pack
  pub snapshots : List Pack
  pub events : List ℤ
  pub tool_results : List ToolResult
  pub blobs : List Blob
  pub envelopes : List Stored

abbrev pub same_int : ℤ → ℤ → Bool
same_int a b = leb_ℤ a b && leb_ℤ b a

-- Whether the remainder by a positive number is 0.
abbrev pub divides : ℤ → ℤ → Bool
divides (pos m) (pos n) = n % m == 0
divides (pos m) (negsuc n) = suc n % m == 0
divides (negsuc m) n = false

-- `Retention::keeps`
unfoldable pub keeps : Retention → ℤ → ℤ → String → Bool
keeps policy step newest reference =
    ltb_ℤ (newest -ℤ max_ℤ policy.keep_steps (pos 0)) step
    || ltb_ℤ (pos 0) policy.milestone_every && divides policy.milestone_every step
    || contains policy.keep_refs reference

-- The greatest number, and 0 where there is none.
abbrev pub greatest_from : ℤ → List ℤ → ℤ
greatest_from n [] = n
greatest_from n (m ∷ ms) = greatest_from (max_ℤ n m) ms

abbrev pub greatest : List ℤ → ℤ
greatest [] = pos 0
greatest (n ∷ ns) = greatest_from n ns

abbrev pub steps_of : List Pack → List ℤ
steps_of [] = []
steps_of (p ∷ packs) = p.step ∷ steps_of packs

abbrev pub doomed : Retention → ℤ → List Pack → List ℤ
doomed policy newest [] = []
doomed policy newest (p ∷ packs) =
    if keeps policy p.step newest p.reference
    then doomed policy newest packs
    else p.step ∷ doomed policy newest packs

abbrev pub among : List ℤ → ℤ → Bool
among steps step = any (λ (s : ℤ). same_int s step) steps

-- `delete from … where step in (…)`
abbrev pub without_steps : List ℤ → List Pack → List Pack
without_steps steps packs = retain (λ (p : Pack). not (among steps p.step)) packs

-- A statement after those before it.
abbrev pub stage : Bool → (Tables → Tables) → Bool × Tables → Bool × Tables
stage works f (false, t) = (false, t)
stage works f (true, t) = if works then (true, f t) else (false, t)

abbrev pub prune_packs : List ℤ → Tables → Tables
prune_packs steps t = record t { packs = without_steps steps t.packs }

abbrev pub prune_snapshots : List ℤ → Tables → Tables
prune_snapshots steps t = record t { snapshots = without_steps steps t.snapshots }

abbrev pub prune_events : ℤ → Tables → Tables
prune_events last t = record t { events = retain (λ (id : ℤ). ltb_ℤ last id) t.events }

abbrev pub prune_results : Tables → Tables
prune_results t = record t {
  tool_results = retain (λ (r : ToolResult). among t.events r.event_id) t.tool_results;
}

abbrev pub names_blob : String → ToolResult → Bool
names_blob hash r = elim r.blob_hash [ none ↦ false | some h ↦ h == hash ]

abbrev pub referenced : String → List ToolResult → Bool
referenced hash results = any (names_blob hash) results

abbrev pub prune_blobs : ℤ → Tables → Tables
prune_blobs cutoff t = record t {
  blobs =
      retain (λ (b : Blob). not (leb_ℤ b.created_at cutoff) || referenced b.sha256 t.tool_results)
        t.blobs;
}

abbrev outlives : ℤ → Stored → Bool
outlives now e = elim e.ttl_s [ none ↦ true | some ttl ↦ ltb_ℤ now (e.ts +ℤ ttl *ℤ pos 1000) ]

abbrev pub prune_envelopes : ℤ → Tables → Tables
prune_envelopes now t = record t { envelopes = retain (outlives now) t.envelopes }

abbrev pub prune_steps : (ℕ → Bool) → List ℤ → Bool × Tables → Bool × Tables
prune_steps works steps p =
    if is_empty steps
    then p
    else stage (works 1) (prune_snapshots steps) (stage (works 0) (prune_packs steps) p)

abbrev pub prune_window : (ℕ → Bool) → Retention → Bool × Tables → Bool × Tables
prune_window works policy (sound, t) =
    if ltb_ℤ (pos 0) policy.keep_events
    then stage (works 3) prune_results
        (stage (works 2) (prune_events (greatest t.events -ℤ policy.keep_events)) (sound, t))
    else (sound, t)

-- Whether every statement succeeded, and the tables.
unfoldable pub retain_pass : (ℕ → Bool) → ℤ → Retention → Tables → Bool × Tables
retain_pass works now policy t =
    let steps = doomed policy (greatest (steps_of t.packs)) t.packs in
    stage (works 5) (prune_envelopes now) (
      stage (works 4) (prune_blobs (now -ℤ max_ℤ policy.blob_grace_ms (pos 0)))
        (prune_window works policy (prune_steps works steps (true, t))))
