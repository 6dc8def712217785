-- ===== src/Std.antt =====
-- What the program uses of Rust's standard library on byte slices and strings. A `str` is its UTF-8
-- bytes.
pub mod Ascii
pub mod Split
pub mod Trim
pub mod Utf8
pub mod Format
