-- ===== src/Pci/Laws.antt =====
-- What the configuration address says, and the interrupt of a device.
use stream_os.Base.{ℕ, ◌%◌, ◌<◌, ◌≡◌, refl, arith, some, true}
use stream_os.BitManipulation.{get_bits, get_bit}
use stream_os.BitManipulation.Laws.{bit_fields, get_bits-arith, and_ones}
use stream_os.Io.{IoRange, verify_offset, write_32, read_32}
use stream_os.Io.Ports.{Ports}
use stream_os.Pci.{PciAddress, Pci, address_word, select_pci_address, config_read, config_write}

-- A device's address as the bus has it, and an offset of a register of four bytes.
abbrev pub IsAddress : PciAddress → Type 0
IsAddress a = (a.bus < 256) × (a.slot < 32) × (a.function < 8)

-- The controller reads the bus, the slot, the function and the register off the address that is
-- written, whose highest bit enables it: for an aligned offset below 256 they are the ones asked for.
pub address_word_fields :
    (a : PciAddress) (offset : ℕ)
    → IsAddress a
    → offset < 256
    → (get_bits 32 0 8 (address_word a offset) ≡ offset)
      × (get_bits 32 8 3 (address_word a offset) ≡ a.function)
      × (get_bits 32 11 5 (address_word a offset) ≡ a.slot)
      × (get_bits 32 16 8 (address_word a offset) ≡ a.bus)
      × (get_bits 32 24 7 (address_word a offset) ≡ 0)
      × (get_bit 32 31 (address_word a offset) ≡ true)
unfolding address_word
address_word_fields a offset h k = (
  simp bit_fields (rw (get_bits-arith 32 0 8 offset refl) (omega arith)),
  simp bit_fields (omega arith),
  simp bit_fields (omega arith),
  simp bit_fields (omega arith),
  simp bit_fields (rw (get_bits-arith 32 24 7 offset refl) (omega arith)),
  simp bit_fields,
)

-- The two ports of the configuration space.
abbrev pub pci_ports : IoRange
pci_ports = record { addr = 0xCF8; length = 8 }

module _ (P : Ports) (pci : Pci) (a : PciAddress) (offset : ℕ) (s : P.State) where
  pub select-some :
      pci.pci_io ≡ pci_ports
      → offset % 4 ≡ 0
      → select_pci_address P pci a offset s ≡ some (P.output 4 0xCF8 (address_word a offset) s)
  unfolding select_pci_address write_32 verify_offset
  select-some io aligned = rw (io, and_ones offset 2, aligned) refl

  pub config_read-some :
      pci.pci_io ≡ pci_ports
      → offset % 4 ≡ 0
      → config_read P pci a offset s
        ≡ some (P.input 4 0xCFC (P.output 4 0xCF8 (address_word a offset) s))
  unfolding config_read read_32 verify_offset
  config_read-some io aligned = rw (select-some io aligned, io) refl

  pub config_write-some :
      (value : ℕ)
      → pci.pci_io ≡ pci_ports
      → offset % 4 ≡ 0
      → config_write P pci a offset value s
        ≡ some (P.output 4 0xCFC value (P.output 4 0xCF8 (address_word a offset) s))
  unfolding config_write write_32 verify_offset
  config_write-some value io aligned = rw (select-some io aligned, io) refl
