-- ===== src/Transfer/Mirror.antt =====
-- internal/transfer/mirror.go: one tree made like the other.
pub mod Diff
pub mod Order
pub mod Transfers
pub mod Execute
pub mod Scan
pub mod Sync
pub mod Tests
pub mod Insertion
