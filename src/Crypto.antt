-- ===== src/Crypto.antt =====
-- The callbacks that the patched backend is given: src/crypto_x448.rs, src/crypto_ed448.rs and
-- src/crypto_char2.rs.
pub mod Registration
pub mod X448
pub mod Ed448
