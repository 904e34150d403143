-- ===== src/Word.antt =====
-- Machine words: little-endian bytes, two's complement, and checked arithmetic.
pub mod Endian
pub mod Signed
pub mod Usize
