-- ===== src/Bus.antt =====
-- The message hub (rs/bus).
pub mod Level
pub mod Tags
pub mod Envelope
pub mod Filter
pub mod Ring
pub mod Secret
pub mod Hub
pub mod Tests
