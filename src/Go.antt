-- ===== src/Go.antt =====
-- What the source takes from Go's standard library, written out.
pub mod Checksum
pub mod Path
pub mod Utf8
