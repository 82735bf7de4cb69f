-- ===== src/Cast/Rtcp.antt =====
-- crates/nd-chromecast/src/rtcp.rs: sender reports, and the receiver's compound datagrams.
pub mod Report
pub mod Blocks
pub mod Feedback
mod Tests
