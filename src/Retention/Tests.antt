-- ===== src/Retention/Tests.antt =====
-- A pass over a file with three packs and two blobs (rs/storage/src/retain.rs).
use tenon.Prelude.{ℕ, Bool, true, false, ◌≡◌, refl, some, [], ◌∷◌, arith}
use tenon.Prelude.Int.{pos, ◌-ℤ◌}
use tenon.Retention.{Retention, Pack, Tables, keeps, retain_pass}
use tenon.Retention.Packs.{Thins, Kept, first, later, retain_pass-Thins}
use tenon.Retention.Blobs.{has_blob, retain-Safe}

abbrev policy : Retention
policy = record {
  keep_steps = pos 1;
  milestone_every = pos 10;
  keep_refs = "lkg" ∷ [];
  keep_events = pos 0;
  blob_grace_ms = pos 100;
}

abbrev pack : ℕ → Pack
pack n = record { step = pos n; reference = "r" }

abbrev tables : Tables
tables = record {
  packs = pack 10 ∷ pack 11 ∷ pack 12 ∷ [];
  snapshots = [];
  events = [];
  tool_results = record { event_id = pos 1; blob_hash = some "a" } ∷ [];
  blobs =
      (record { sha256 = "a"; created_at = pos 1 })
      ∷ (record { sha256 = "b"; created_at = pos 1 })
      ∷ [];
  envelopes = [];
}

abbrev all_work : ℕ → Bool
all_work i = true

-- The milestone and the newest pack stay, and the blob that is named.
left : (retain_pass all_work (pos 1000) policy tables).1.packs ≡ pack 10 ∷ pack 12 ∷ []
unfolding retain_pass keeps ◌-ℤ◌
left = refl

unnamed : has_blob "b" (retain_pass all_work (pos 1000) policy tables).1.blobs ≡ false
unfolding retain_pass keeps ◌-ℤ◌
unnamed = refl

packs_example :
    Thins
      (Kept policy (pos 12))
      tables.packs
      (retain_pass all_work (pos 1000) policy tables).1.packs
packs_example =
    retain_pass-Thins all_work (pos 1000) policy tables (pos 12) (refl, (refl, (refl, tt)))
      ((omega arith, (omega arith, (omega arith, tt))), later (later (first refl))) refl

blob_example : has_blob "a" (retain_pass all_work (pos 1000) policy tables).1.blobs ≡ true
unfolding retain_pass keeps ◌-ℤ◌
blob_example = retain-Safe all_work (pos 1000) policy tables "a" refl refl
