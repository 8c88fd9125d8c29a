-- ===== src/Tests.antt =====
-- A bus, crates and settings to run the program on, with the runs and the theorems at them.
mod Bus
mod Crates
mod Lawful
mod Rules
mod Servers
mod Hyphens
mod Signals
mod Units
mod Watchers
mod Commands
mod Monitors
mod Wires
mod Obeying
mod Yielding
mod Systemds
