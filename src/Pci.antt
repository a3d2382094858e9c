-- ===== src/Pci.antt =====
-- src/io/pci.rs: the configuration space behind two ports, the iteration over its devices, and what
-- drivers ask of a device. The hardware is the parameter `P`. Registers of a device are numbers of
-- four bytes each; a failed assertion or `unwrap` is `none`.
pub mod Laws
pub mod Position
pub mod Iteration
pub mod Registers
pub mod Device
use stream_os.Base.{
  ℕ, zero, suc, ◌+◌, ◌-◌, ◌*◌, ◌^◌, ◌%◌, List, [], ◌∷◌, ◌++◌, Option, none, some, ◌>>=◌, ◌>>◌,
  assert, Bool, true, false, ◌&&◌, ◌||◌, not, if◌then◌else◌, ◌==◌, ltb, u8, u16, u32, bit_and,
  Result, ok, err,
}
use stream_os.BitManipulation.{set_bits, set_bit, get_bits, get_bit, not_word}
use stream_os.Interrupts.{IrqId, pic1, pic2}
use stream_os.Io.{IoRange, PortRange, request_io_range, write_32, read_32}
use stream_os.Io.Ports.{Ports, access, write_access}

pub record PciAddress : Type 0 where
  pub bus : ℕ
  pub slot : ℕ
  pub function : ℕ

abbrev pub same_address : PciAddress → PciAddress → Bool
same_address a b = a.bus == b.bus && a.slot == b.slot && a.function == b.function

-- The set of the addresses that were handed out.
unfoldable pub contains : List PciAddress → PciAddress → Bool
contains [] a = false
contains (b ∷ bs) a = let later = contains bs a in if same_address a b then true else later

pub record Pci : Type 0 where
  pub pci_io : IoRange
  pub allocated_devs : List PciAddress

pub data PciIoUnavailable : Type 0 where
  unavailable : PciIoUnavailable

abbrev pub pci_from : Option IoRange → Result Pci PciIoUnavailable
pci_from none = err unavailable
pci_from (some io) = ok (record { pci_io = io; allocated_devs = [] })

-- `Pci::new`, and the allocator's ranges after it.
unfoldable pub new : List PortRange → List PortRange × Result Pci PciIoUnavailable
new allocator = let (after, io) = request_io_range allocator 0xCF8 8 in (after, pci_from io)

-- The address that `select_pci_address` writes.
unfoldable pub address_word : PciAddress → ℕ → ℕ
address_word a offset =
    let a1 = set_bits 32 8 3 a.function offset in
    let a2 = set_bits 32 11 5 a.slot a1 in
    let a3 = set_bits 32 16 8 a.bus a2 in set_bit 32 31 true a3

pub data InvalidHeaderError : Type 0 where
  invalid_header : InvalidHeaderError

pub data PciDevice : Type 0 where
  general : PciAddress → PciDevice
  pci_pci_bridge pci_card_bus_bridge : PciDevice

abbrev pub device_of : ℕ → PciAddress → Result PciDevice InvalidHeaderError
device_of header_type a =
    if header_type == 0
    then ok (general a)
    else if header_type == 1
    then ok pci_pci_bridge
    else if header_type == 2
    then ok pci_card_bus_bridge
    else err invalid_header

pub record PciDeviceIter : Type 0 where
  pub finished_iterating : Bool
  pub bus_num : ℕ
  pub device_num : ℕ
  pub function : ℕ

unfoldable pub increment_iter : PciDeviceIter → PciDeviceIter
increment_iter it =
    let function = u8 (it.function + 1) % 8 in
    let device_num = u8 (it.device_num + 1) % 32 in
    let bus_num = u8 (it.bus_num + 1) in
    if not (function == 0)
    then record it { function = function }
    else (if not (device_num == 0)
        then record it { function = function; device_num = device_num }
        else if not (bus_num == 0)
        then record it { function = function; device_num = device_num; bus_num = bus_num }
        else record {
          finished_iterating = true;
          function = function;
          device_num = device_num;
          bus_num = bus_num;
        })

abbrev pub address_of : PciDeviceIter → PciAddress
address_of it = record { bus = it.bus_num; slot = it.device_num; function = it.function }

abbrev pub devices : PciDeviceIter
devices = record { finished_iterating = false; bus_num = 0; device_num = 0; function = 0 }

pub record MmapRange : Type 0 where
  pub start : ℕ
  pub length : ℕ

pub record PciInterfaceId : Type 0 where
  pub class : ℕ
  pub subclass : ℕ
  pub interface : ℕ
  pub revision : ℕ

pub data InvalidIrq : Type 0 where
  invalid_irq : InvalidIrq

abbrev pub irq_of : ℕ → Result IrqId InvalidIrq
irq_of irq =
    if ltb irq 8 then ok (pic1 irq) else if ltb irq 16 then ok (pic2 (irq - 8)) else err invalid_irq

-- The numbers of the base registers, `4 + i` for each of the six.
abbrev pub base_registers : List ℕ
base_registers = 4 ∷ 5 ∷ 6 ∷ 7 ∷ 8 ∷ 9 ∷ []

module _ (P : Ports) where
  unfoldable pub select_pci_address : Pci → PciAddress → ℕ → P.State → Option P.State
  select_pci_address pci a offset s =
      assert (bit_and offset 0b11 == 0)
      >> write_access P (write_32 pci.pci_io 0 (address_word a offset)) s

  unfoldable pub config_read : Pci → PciAddress → ℕ → P.State → Option (P.State × ℕ)
  config_read pci a offset s =
      select_pci_address pci a offset s >>= λ selected. access P (read_32 pci.pci_io 4) selected

  unfoldable pub config_write : Pci → PciAddress → ℕ → ℕ → P.State → Option P.State
  config_write pci a offset value s = select_pci_address pci a offset s >>= λ selected.
      write_access P (write_32 pci.pci_io 4 value) selected

  unfoldable pub read_register : Pci → PciAddress → ℕ → P.State → Option (P.State × ℕ)
  read_register pci a register s = config_read pci a (u8 (register * 4)) s

  unfoldable pub write_register : Pci → PciAddress → ℕ → ℕ → P.State → Option P.State
  write_register pci a register value s = config_write pci a (u8 (register * 4)) value s

  unfoldable pub enable_bus_mastering : Pci → PciAddress → P.State → Option P.State
  enable_bus_mastering pci a s = do
    (s1, status_command) ← config_read pci a 4 s
    config_write pci a 4 (set_bit 32 2 true status_command) s1

  -- The addresses that were handed out, the hardware, and the device.
  unfoldable pub upgrade :
      PciAddress → Pci → P.State → Option (Pci × P.State × Result PciDevice InvalidHeaderError)
  upgrade a pci s = do
    (s1, reg) ← read_register pci a 3 s
    let header_type = get_bits 32 16 8 reg
    assert (not (contains pci.allocated_devs a))
        >> some (
          record pci { allocated_devs = pci.allocated_devs ++ (a ∷ []) },
          s1,
          device_of header_type a,
        )

  unfoldable pub id : Pci → PciAddress → P.State → Option (P.State × (ℕ × ℕ))
  id pci a s = do
    (s1, reg) ← config_read pci a 0 s
    some (s1, (u16 (get_bits 32 0 16 reg), u16 (get_bits 32 16 16 reg)))

  unfoldable pub interface_id : Pci → PciAddress → P.State → Option (P.State × PciInterfaceId)
  interface_id pci a s = do
    (s1, reg) ← config_read pci a 0x8 s
    some (
      s1,
      record {
        class = u8 (get_bits 32 24 8 reg);
        subclass = u8 (get_bits 32 16 8 reg);
        interface = u8 (get_bits 32 8 8 reg);
        revision = u8 (get_bits 32 0 8 reg);
      },
    )

  unfoldable pub get_irq_num :
      Pci → PciAddress → P.State → Option (P.State × Result IrqId InvalidIrq)
  get_irq_num pci a s = do
    (s1, reg) ← read_register pci a 0xf s
    some (s1, irq_of (u8 (get_bits 32 0 8 reg)))

  -- The loop of `find_io_base` over some registers.
  unfoldable pub find_io_from : List ℕ → Pci → PciAddress → P.State → Option (P.State × Option ℕ)
  find_io_from [] pci a s = some (s, none)
  find_io_from (register ∷ registers) pci a s = do
    (s1, base_address) ← read_register pci a register s
    let later = find_io_from registers pci a s1
    if get_bit 32 0 base_address && ltb 0 (get_bits 32 2 30 base_address)
        then some (s1, some (bit_and base_address (not_word 32 0b11)))
        else later

  unfoldable pub find_io_base : Pci → PciAddress → P.State → Option (P.State × Option ℕ)
  find_io_base pci a s = find_io_from base_registers pci a s

  -- How a base register is probed for the size of its range.
  unfoldable pub probe : ℕ → ℕ → Pci → PciAddress → P.State → Option (P.State × MmapRange)
  probe register base_address pci a s = do
    s1 ← write_register pci a register (2 ^ 32 - 1) s
    (s2, end_address) ← read_register pci a register s1
    let length = u32 (not_word 32 (bit_and end_address (not_word 32 0b1111)) + 1)
    s3 ← write_register pci a register base_address s2
    some (s3, record { start = bit_and base_address (not_word 32 0b1111); length = length })

  -- The loop of `find_mmap_range` over some registers.
  unfoldable pub find_mmap_from :
      List ℕ → Pci → PciAddress → P.State → Option (P.State × Option MmapRange)
  find_mmap_from [] pci a s = some (s, none)
  find_mmap_from (register ∷ registers) pci a s = do
    (s1, base_address) ← read_register pci a register s
    let later = find_mmap_from registers pci a s1
    let probed = probe register base_address pci a s1
    if not (get_bit 32 0 base_address) && ltb 0 base_address
        then (probed >>= λ (s2, range). some (s2, some range))
        else later

  unfoldable pub find_mmap_range : Pci → PciAddress → P.State → Option (P.State × Option MmapRange)
  find_mmap_range pci a s = find_mmap_from base_registers pci a s

  -- What a call of `next` gives, with the iterator, the addresses handed out and the hardware after
  -- it; or its loop did not end within the turns that it was given.
  pub data Next : Type 0 where
    out_of_turns : Next
    no_more : P.State → Next
    item : PciDeviceIter → Pci → P.State → Result PciDevice InvalidHeaderError → Next

  unfoldable pub next : ℕ → PciDeviceIter → Pci → P.State → Option Next
  next zero it pci s = some out_of_turns
  next (suc turns) it pci s =
      let found = config_read pci (address_of it) 0 s >>= λ (s1, device_vendor).
      let later = next turns (increment_iter it) pci s1 in
      let upgraded = upgrade (address_of it) pci s1 >>= λ (pci1, s2, device).
      some (item (increment_iter it) pci1 s2 device) in
      if u16 (get_bits 32 0 16 device_vendor) == 0xffff then later else upgraded in
      if it.finished_iterating then some (no_more s) else found
