-- ===== src/Core.antt =====
-- The parts of crates/nd-core that every protocol shares.
pub mod Status
pub mod Sps
pub mod Secret
pub mod Http
pub mod Join
