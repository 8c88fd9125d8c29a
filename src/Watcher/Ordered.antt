-- ===== src/Watcher/Ordered.antt =====
-- The order of a watcher's subscriptions and questions.
pub mod Calls
pub mod Quiet
pub mod Track
pub mod Signals
pub use Calls.{IsGetAll, IsOrdered}
