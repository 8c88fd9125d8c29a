-- ===== src/Main.antt =====
-- src/main.rs: the entry point, the subcommands, and the threads.
pub mod Threads
pub mod Args
pub mod Bounds
pub mod Joining
pub mod Expected
pub mod Ends
pub mod Safety
