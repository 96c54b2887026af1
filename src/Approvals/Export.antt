-- ===== src/Approvals/Export.antt =====
-- The push-out of a workspace behind its gate (`on_snap_export` and `snap_export` of
-- rs/base/src/approvals.rs): the newest pack of an env, written to a path of the host. `packs` is what
-- the env's file gives, and `dirs` and `writes` are what the host answers.
use tenon.Prelude.{
  ℕ, String, Bool, not, ◌||◌, Option, none, some, List, [], ◌∷◌, ◌==◌, String_eq, length, leb,
  Result, ok, err, if◌then◌else◌,
}
use tenon.Text.{◌<>◌}
use tenon.Approvals.{Queue, World, Config}
use tenon.Approvals.Gate.{gate_request}

-- `PackRow`
pub record Pack : Type 0 where
  pub step : ℕ
  pub reference : String
  pub bytes : List ℕ

abbrev newer : Pack → Option Pack → Option Pack
newer p none = some p
newer p (some q) = if leb p.step q.step then some q else some p

-- `max_by_key`: the last of those with the highest step.
abbrev pub newest : List Pack → Option Pack
newest [] = none
newest (p ∷ ps) = newer p (newest ps)

-- What a successful export answers and emits, and the bytes that it wrote.
pub record Exported : Type 0 where
  pub env : String
  pub step : ℕ
  pub reference : String
  pub size : ℕ
  pub path : String
  pub written : List ℕ

abbrev write_pack :
    Result String Unit → Result String Unit → String → String → Option Pack → Result String Exported
write_pack dirs writes env path none = err ("env " <> env <> " has no snapshot to export")
write_pack (err reason) writes env path (some p) = err reason
write_pack (ok u) (err reason) env path (some p) = err reason
write_pack (ok u) (ok v) env path (some p) = ok (record {
  env = env;
  step = p.step;
  reference = p.reference;
  size = length p.bytes;
  path = path;
  written = p.bytes;
})

abbrev read_packs :
    Result String Unit
    → Result String Unit
    → String
    → String
    → Option (Result String (List Pack))
    → Result String Exported
read_packs dirs writes env path none = err ("env " <> env <> " has no state file")
read_packs dirs writes env path (some (err reason)) = err reason
read_packs dirs writes env path (some (ok packs)) = write_pack dirs writes env path (newest packs)

-- `snap_export`: `packs` is none for an env without a state file.
unfoldable pub snap_export :
    Option (Result String (List Pack))
    → Result String Unit
    → Result String Unit
    → String
    → String
    → Result String Exported
snap_export packs dirs writes env path =
    if path == "" then err "snap.export needs a path" else read_packs dirs writes env path packs

-- What a call comes to: the export at once, or the request behind the gate.
pub data Pushed : Type 0 where
  at_once : Result String Exported → Pushed
  held : Queue → Pushed

-- `on_snap_export`: `gated` is the configuration's switch, `passed` is set when the gate resumes it.
unfoldable pub on_snap_export :
    World
    → Config
    → Bool
    → Option (Result String (List Pack))
    → Result String Unit
    → Result String Unit
    → Bool
    → String
    → String
    → ℕ
    → Queue
    → Pushed
on_snap_export w config gated packs dirs writes passed env path channel q =
    if passed || not gated
    then at_once (snap_export packs dirs writes env path)
    else held (
        gate_request w config env ("snap.export of " <> env <> " to the host path " <> path)
          "snap.export" channel q)
