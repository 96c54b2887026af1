-- ===== src/Bus/Level.antt =====
-- The severities of an envelope (rs/bus/src/envelope.rs).
use tenon.Prelude.{String, Bool, true, false, ◌≡◌, ◌↔◌, Eq, ◌==◌, String_eq, arith, if◌then◌else◌}

pub data Level : Type 0 where
  trace debug info warn error : Level

unfoldable pub as_str : Level → String
as_str trace = "trace"
as_str debug = "debug"
as_str info = "info"
as_str warn = "warn"
as_str error = "error"

unfoldable pub parse : String → Level
parse text =
    if text == "trace"
    then trace
    else if text == "debug"
    then debug
    else if text == "warn"
    then warn
    else if text == "error"
    then error
    else info

abbrev level_beq : Level → Level → Bool
level_beq trace trace = true
level_beq debug debug = true
level_beq info info = true
level_beq warn warn = true
level_beq error error = true
level_beq _ _ = false

pub level_beq_iff : (a b : Level) → (level_beq a b ≡ true) ↔ (a ≡ b)
level_beq_iff a b = ground arith

instance abbrev pub Level_eq : Eq Level
Level_eq = record { beq = level_beq; beq_iff = level_beq_iff }
