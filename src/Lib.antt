-- ===== src/Lib.antt =====
-- A model of stream-os, an operating system kernel in Rust for 32-bit x86, with proofs about it.
--
-- How the parts interact. src/main.rs receives packets from the network card (src/rtl8139.rs),
-- has src/net/mod.rs parse the Ethernet frame, the ARP or IPv4 frame in it and the UDP or TCP
-- frame in that, and hands TCP frames to src/net/tcp.rs, which keeps a state for each connection.
-- A frame may have a response, which goes back through generate_ipv4_frame and
-- generate_ethernet_frame; a task that polls `Tcp::service` sends what connections have written,
-- what is to be sent again, and SYN-ACK frames that time out. The tables of the processor
-- (src/gdt.rs, src/interrupts.rs) and the interrupt commands between processors
-- (src/multiprocessing.rs) are packed with the bit fields of src/util/bit_manipulation.rs.
--
-- Which file models what:
-- - Base and its children: tests, lists as slices and vectors, machine words, shared by all.
-- - Bits: the binary digits of a number under the bitwise operations.
-- - BitManipulation: src/util/bit_manipulation.rs, `GetBits` and `SetBits`, with the width as a
--   parameter.
-- - Gdt: src/gdt.rs. Interrupts: src/interrupts.rs, with Interrupts.Controller on its handlers and
--   Interrupts.Setup on its set-up. Rtc: src/io/rtc.rs. Rtl8139.Registers and Rtl8139.Packets:
--   src/rtl8139.rs. Multiprocessing: src/multiprocessing.rs, with
--   Multiprocessing.Dispatcher on the functions handed to other processors.
-- - Io: src/io/io_allocator.rs, the ranges of ports that drivers claim, and the check of their
--   offsets. Io.Ports: the hardware behind ports, an interface of what a read gives and what reads,
--   writes and waits do to its state; drivers are functions over it. One instance keeps a log.
-- - Pci: src/io/pci.rs, with Pci.Position and Pci.Iteration on the iteration over devices, and
--   Pci.Registers on the registers of a device.
-- - Usb.Packet, Usb.Service, Usb.Descriptor and its children: src/usb/mod.rs. Usb.Uhci and its children:
--   src/usb/uhci.rs, where Link is its link pointers, TransferDescriptor its descriptors, Work the
--   queue of work and its future, and Port its registers and resets.
-- - Executor and Futures: src/future.rs, the tasks and the rounds in which they are polled, and the
--   futures that are made of others.
-- - Multiboot2: src/multiboot2.rs, the tags of the boot loader.
-- - Acpi: src/acpi.rs, the tables that describe the machine and the loops over them.
-- - Allocator: src/allocator.rs, the list of free segments of the global allocator.
-- - Channel.Queue, Channel.Oneshot: src/util/async_channel.rs and src/util/oneshot.rs, the
--   channels of tasks. UpdatedVal: src/util/updated_val.rs, a value that tasks wait for.
-- - LockFreeQueue: src/util/lock_free_queue.rs, the accesses of a sender and the pop of the receiver;
--   Index is its indices, Holds what it stands for, Push and Pop a call that works alone.
-- - SpinLock, WakerList, AsyncMutex, InterruptGuard: the files of src/util of these names.
-- - Libc: src/libc.rs.
-- - Sleep: src/sleep.rs, the wakeup times and the interrupt that wakes; Sleep.Requests
--   is a task's way to them, with src/time.rs.
-- - Net.Address: the addresses of src/main.rs. Net.Checksum, Net.Ethernet, Net.Arp, Net.Ipv4,
--   Net.Udp and Net.Parse: src/net/mod.rs, one module for each kind of frame and one for the
--   parsers.
-- - Net.Tcp.Flags, Net.Tcp.Frame: `TcpFlags` and `TcpFrame` of src/net/tcp.rs, and their
--   generation.
-- - Net.Tcp.State: the keys and states of connections. Net.Tcp.Handle: `Tcp::handle_frame`, one
--   function for each arm of its match; Net.Tcp.Handle.Table: the same over the table of
--   connections.
-- - Net.Tcp.Poller: `OutgoingPoller::poll`, `write_request_to_outgoing_packet` and
--   `generate_tcp_push`.
-- - Packets: src/main.rs, what is done with a received packet; Wire, Resolution and Delivery on what
--   packets carry between two hosts. Http: src/main.rs, the answer to a request.
-- - Tests: the theorems at concrete inputs.
--
-- How code corresponds to definitions. A panic (a slice out of range, a failed `expect` or
-- `assert!`) is `none`; a `Result` of the code is a `Result` here. The release build is modelled, in
-- which arithmetic wraps around and a shift takes its count modulo the width; `usize` and pointers
-- have 32 bits. A frame type is its packet, a list of bytes, and its methods are functions on that
-- list. A handler is a function from the state to the new state, the response and the calls that it
-- makes of other parts. Recursion is on lists but for loops that wait for hardware or for bytes,
-- which get a number of turns: that of a clock's update, that of the reset of the network card, the
-- loop of the PCI iterator, for which 65537 turns are enough, one more than there are functions, and
-- the loops over USB descriptors, which end within one call more than there are descriptors unless
-- one of them has length zero. The loops over tags of the boot loader end with one turn more than there are tags. The loops over ACPI tables end within one call more than there are
-- pointers, and within one call more than there are records of local APICs at the start.
--
-- What is taken as given. The hash map of connections (`hashbrown`) is an interface of a lookup
-- and an insertion with their two laws; a poll visits the entries of that map as a list, in
-- whatever order the map has. The random number, the clock and the time one second from now,
-- which the code computes in `f32`, are inputs. A channel is the queue of its messages. The locks are modelled
-- on their own: elsewhere a handler and a poll are each one step. Only the poll of a task that waits
-- for a value of src/util/updated_val.rs, which gives up when the lock is taken, says whether it got it.
-- The closures that handle an interrupt are numbers, and what each does to the hardware is a parameter.
--
-- The addresses of boxes are inputs of the functions that allocate them. How the configuration space
-- of PCI, the registers of the clock and those of the network card answer reads and writes is a
-- record of laws each, and a device of registers in memory fulfils it.
--
-- What is not modelled: inline assembly, drawing, the test code, text output, the drivers of the
-- serial devices, and the parts of src/main.rs that start
-- the others. The executor is modelled on one processor.
pub mod Base
pub mod Bits
pub mod BitManipulation
pub mod Gdt
pub mod Interrupts
pub mod Multiprocessing
pub mod Net
pub mod Pci
pub mod Rtl8139
pub mod Rtc
pub mod UpdatedVal
pub mod Acpi
pub mod LockFreeQueue
pub mod Packets
pub mod Http
pub mod Executor
pub mod Multiboot2
pub mod InterruptGuard
pub mod Futures
pub mod Libc
pub mod SpinLock
pub mod WakerList
pub mod AsyncMutex
pub mod Usb
pub mod Sleep
pub mod Channel
pub mod Allocator
pub mod Io
pub mod Tests
