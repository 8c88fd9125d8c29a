-- ===== src/Watcher/Safety.antt =====
-- With which errors a watcher can end, and when it can panic.
pub mod Errors
pub mod Notifying
pub mod Signals
pub mod Running
