-- ===== src/Http2.antt =====
-- src/h2.rs: frames, SETTINGS, the framing of rewritten header blocks, and one direction of the
-- bridge.
pub mod Frame
pub mod Settings
pub mod Reframe
pub mod Direction
pub mod Bridge
