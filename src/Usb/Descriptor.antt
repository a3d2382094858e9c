-- ===== src/Usb/Descriptor.antt =====
-- src/usb/mod.rs: descriptors, each with the getters of its kind, and the iterator over the
-- descriptors of a configuration. A getter of bytes that are missing panics.
pub mod Device
pub mod Configuration
pub mod Interface
pub mod Endpoint
pub mod Iterator
