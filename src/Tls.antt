-- ===== src/Tls.antt =====
-- The mirroring of a hello's features on the connection to the origin: src/tls.rs. The feature
-- `patched-tls` of the build is the parameter `patched`.
pub mod Order
pub mod Groups
pub mod Certificates
pub mod Mirror
