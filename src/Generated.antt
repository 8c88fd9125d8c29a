-- ===== src/Generated.antt =====
-- src/generated/org_freedesktop_systemd1.rs: the client methods and the signals that the program
-- uses, and the servers of some interfaces.
pub mod Wire
pub mod Client
pub mod Signals
pub mod Trace
pub mod Server
pub mod Peer
pub mod Properties
pub mod RoundTrip
pub mod Conforming
pub mod Systemd
