-- ===== src/Usb.antt =====
-- src/usb: packets and descriptors of the universal serial bus, and its host controller.
pub mod Packet
pub mod Descriptor
pub mod Uhci
pub mod Service
