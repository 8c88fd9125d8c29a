-- ===== src/Generated/Systemd.antt =====
-- The interface org.freedesktop.systemd1.Manager: the members that the program does not use, on both
-- sides, and what is left of the interface Properties.
pub mod Kinds
pub mod Typed
pub mod Finding
pub mod Starting
pub mod Units
pub mod Processes
pub mod Listing
pub mod Power
pub mod Environment
pub mod Enabling
pub mod Targets
pub mod Users
pub mod Boot
pub mod Startup
pub mod Initrd
pub mod Logging
pub mod Watchdogs
pub mod Defaults
pub mod Limits
pub mod MoreLimits
pub mod Scheduling
pub mod Server
pub mod Trip
pub mod MethodTrip
pub mod EarlyTrip
pub mod LateTrip
pub mod PropertyTrip
pub mod Signals
pub mod SignalTrip
pub mod Declaring
pub mod Setting
