-- ===== src/Cast.antt =====
-- The Cast mirroring sender of crates/nd-chromecast.
pub mod Flow
pub mod Rtp
pub mod Rtcp
pub mod Rate
pub mod Pacing
pub mod Sender
pub mod Worker
pub mod Control
pub mod Routes
