-- ===== src/Tests/Pci.antt =====
-- The configuration space, on a device that is a memory of registers.
use stream_os.Base.{ℕ, ◌≡◌, refl, arith, [], ◌∷◌, some, if◌then◌else◌, ◌==◌}
use stream_os.Io.Ports.{Ports, log_ports}
use stream_os.Pci.{Pci, PciAddress, Next, next, devices, find_mmap_range, base_registers}
use stream_os.Pci.Laws.{pci_ports}
use stream_os.Pci.Iteration.{IsGiven, next-IsGiven}
use stream_os.Pci.Registers.{ConfigSpace, first_range, find_mmap_range-IsSame}

-- The selected register, and what each register holds.
pub record Memory : Type 0 where
  pub selected : ℕ
  pub registers : ℕ → ℕ

abbrev stored_word : ℕ → ℕ → ℕ
stored_word w x = x

abbrev output_word : ℕ → ℕ → Memory → Memory
output_word port val m =
    if port == 0xCF8
    then record m { selected = val }
    else record m { registers = λ v. if v == m.selected then val else m.registers v }

abbrev memory_ports : Ports
memory_ports = record {
  State = Memory;
  input = λ n port m. (m, m.registers m.selected);
  output = λ n port val m. output_word port val m;
  sleep = λ microseconds m. m;
}

abbrev memory_space : ConfigSpace memory_ports
memory_space = record {
  value = λ m w. m.registers w;
  stored = stored_word;
  read_value = λ s w. refl;
  read_keeps = λ s w v. refl;
  write_value = λ s w x v. refl;
  holds = λ s w. refl;
}

abbrev pci : Pci
pci = record { pci_io = pci_ports; allocated_devs = [] }

abbrev card : PciAddress
card = record { bus = 0; slot = 3; function = 0 }

abbrev memory : Memory
memory = record { selected = 0; registers = λ v. if v == 0x80001814 then 0xfebf1000 else 0x10b }

next-IsGiven_example :
    (out : Next log_ports) × (next log_ports 65537 devices pci
        (record { reads = 0x8086 ∷ 0 ∷ []; entries = [] })
      ≡ some out)
    × IsGiven log_ports devices pci (record { reads = 0x8086 ∷ 0 ∷ []; entries = [] }) out
next-IsGiven_example =
    next-IsGiven log_ports 65537 devices pci (record { reads = 0x8086 ∷ 0 ∷ []; entries = [] })
      (omega arith, omega arith, omega arith) refl tt (omega arith)

find_mmap_range-IsSame_example :
    (after : Memory) × (find_mmap_range memory_ports pci card memory
      ≡ some (after, first_range memory_ports memory_space base_registers memory.registers card))
    × ((v : ℕ) → after.registers v ≡ memory.registers v)
find_mmap_range-IsSame_example =
    find_mmap_range-IsSame memory_ports memory_space pci card refl memory
