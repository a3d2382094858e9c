-- ===== src/Rtl8139.antt =====
-- src/rtl8139.rs: the driver of the network card. The registers of the card are the parameter `C`.
pub mod Registers
pub mod Packets
