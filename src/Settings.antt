-- ===== src/Settings.antt =====
-- src/settings.rs: what a settings file says, decoded into the types that the program works with.
pub mod Regex
pub mod Types
pub mod Decode
pub mod States
pub mod Buses
pub mod Load
pub mod Matching
pub mod Sound
