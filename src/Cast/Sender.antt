-- ===== src/Cast/Sender.antt =====
-- crates/nd-chromecast/src/mirror_session/sender.rs: one mirroring track on the wire.
pub mod Gate
pub mod Clock
pub mod History
pub mod Repair
pub mod Track
