-- ===== src/Usb/Uhci.antt =====
-- src/usb/uhci.rs: the host controller.
pub mod Link
pub mod TransferDescriptor
pub mod Work
pub mod Port
