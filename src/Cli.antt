-- ===== src/Cli.antt =====
-- src/cli.rs: the command line.
pub mod Clap
pub mod Help
pub mod Spec
