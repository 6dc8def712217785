-- ===== src/Fingerprint.antt =====
-- The parsers of captured bytes: src/fingerprint.rs.
pub mod Reader
pub mod Hello
pub mod Records
pub mod Syn
pub mod Pcap
pub mod Ja3
pub mod Ja4
pub mod Json
pub mod Compare
pub mod Evidence
