-- ===== src/H1.antt =====
-- HTTP/1.1: src/h1.rs.
pub mod Lines
pub mod Framing
pub mod Body
pub mod Bridge
