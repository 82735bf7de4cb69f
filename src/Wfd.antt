-- ===== src/Wfd.antt =====
-- The capabilities of crates/nd-wfd: the modes that a Wi-Fi Display sink can show.
pub mod Tables
pub mod Choice
pub mod Formats
pub mod Message
mod Tests
