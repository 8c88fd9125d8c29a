-- ===== src/Watcher.antt =====
-- src/bus.rs: the thread that watches one bus.
pub mod World
pub mod Names
pub mod Rules
pub mod Notify
pub mod Manager
pub mod Units
pub mod Handlers
pub mod Run
pub mod Keeping
pub mod Looping
pub mod Ordered
pub mod Interest
pub mod Newest
pub mod Delivery
pub mod Safety
pub mod Machines
pub mod BusTypes
pub mod Loop
pub mod Removal
pub mod Unchanged
pub mod Starting
pub mod Hyphens
pub mod Monitor
pub mod Alert
