-- ===== src/Tests.antt =====
-- The theorems at concrete inputs.
mod Registers
mod Frames
mod Connections
mod Tables
mod Memory
mod Channels
mod Usb
mod Pci
mod Rtl8139
mod Rtc
mod Updates
mod Acpi
mod Queues
mod Locks
mod Packets
mod Requests
mod Tasks
mod Boot
