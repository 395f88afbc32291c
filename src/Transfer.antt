-- ===== src/Transfer.antt =====
-- Package internal/transfer: remote clients, mirror synchronisation and connection pools.
pub mod Types
pub mod Mirror
pub mod ConnPool
pub mod Pool
pub mod Client
pub mod Remote
pub mod Deadline
pub mod Views
pub mod Swap
pub mod Atomic
pub mod Sftp
pub mod Ftp
pub mod FtpSession
pub mod Store
pub mod Tests
