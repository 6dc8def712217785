-- ===== src/Cli.antt =====
-- The program itself: src/main.rs.
pub mod Alpn
pub mod Run
pub mod Serve
pub mod Connection
