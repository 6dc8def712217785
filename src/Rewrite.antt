-- ===== src/Rewrite.antt =====
-- src/rewrite.rs: the mapping between the public name of the bridge and the upstream site, on header
-- values and on HTTP/1.1 heads.
pub mod Mapping
pub mod Head
