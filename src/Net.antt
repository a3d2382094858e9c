-- ===== src/Net.antt =====
-- src/net/mod.rs and src/net/tcp.rs: the frames of each protocol, and TCP.
pub mod Address
pub mod Checksum
pub mod Ethernet
pub mod Arp
pub mod Ipv4
pub mod Udp
pub mod Parse
pub mod Tcp
