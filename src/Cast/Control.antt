-- ===== src/Cast/Control.antt =====
-- The control channel of crates/nd-chromecast/src/cast: the frames of wire.rs and the writer of
-- writer.rs. The protobuf codec is a parameter.
pub mod Wire
pub mod Writer
