-- ===== src/Watcher/Alert.antt =====
-- News of a tracked unit, from the signal to the messages that it leads to.
pub mod News
pub mod Serving
