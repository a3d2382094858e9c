-- ===== src/Net/Tcp.antt =====
-- src/net/tcp.rs: flags, frames, the state of a connection, and what is sent on its behalf.
pub mod Flags
pub mod Frame
pub mod State
pub mod Handle
pub mod Poller
