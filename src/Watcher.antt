-- ===== src/Watcher.antt =====
-- Package internal/watcher: the daemon's automatic synchronisation.
pub mod Flight
pub mod Process
pub mod Notifier
pub mod Watch
pub mod Debounce
