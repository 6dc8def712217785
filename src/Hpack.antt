-- ===== src/Hpack.antt =====
-- src/hpack_wire.rs: HPACK integers and strings, the dynamic table of the outgoing side, and the
-- rewriter that keeps representations while it translates mapped values.
pub mod Integer
pub mod HuffmanCodes
pub mod Strings
pub mod Table
pub mod Rewriter
pub mod Receiver
