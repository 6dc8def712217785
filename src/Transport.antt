-- ===== src/Transport.antt =====
-- The stream adapters of src/transport.rs.
pub mod Replay
pub mod Capture
pub mod ReadHello
pub mod Tap
pub mod HttpTap
