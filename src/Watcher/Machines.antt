-- ===== src/Watcher/Machines.antt =====
-- The map of machines under the operations of a watcher.
pub mod Aside
pub mod Upsert
pub mod Tracked
pub mod Serving
