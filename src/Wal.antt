-- ===== src/Wal.antt =====
-- internal/db/wal.go
pub mod Codec
pub mod Scan
pub mod Handle
