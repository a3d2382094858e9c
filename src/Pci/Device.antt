-- ===== src/Pci/Device.antt =====
-- What else drivers do with a device: its interrupt, and bus mastering.
use stream_os.Base.{
  ℕ, ◌+◌, ◌%◌, ◌≡◌, refl, ap, ◌∙◌, arith, some, true, ◌==◌, ltb, if◌then◌else◌, u8, Bool-cases, inl,
  inr, Result, ok, err, ◌<◌, ◌≤◌,
}
use stream_os.BitManipulation.{set_bit, get_bits}
use stream_os.BitManipulation.Laws.{get_bits-arith}
use stream_os.Interrupts.{IrqId, interrupt_num}
use stream_os.Io.Ports.{Ports}
use stream_os.Pci.{
  PciAddress, Pci, address_word, read_register, write_register, enable_bus_mastering, get_irq_num,
  irq_of, InvalidIrq, invalid_irq,
}
use stream_os.Pci.Laws.{pci_ports}
use stream_os.Pci.Registers.{ConfigSpace, register_word, IsSame, reads, writes}

-- How an interrupt line is filed.
abbrev pub IsFiled : ℕ → Result IrqId InvalidIrq → Type 0
unfolding interrupt_num
IsFiled line (ok irq) = (line < 16) × (interrupt_num irq ≡ 0x40 + line)
IsFiled line (err invalid_irq) = 16 ≤ line

irq_of-IsFiled : (reg : ℕ) → IsFiled (reg % 256) (irq_of (u8 (get_bits 32 0 8 reg)))
unfolding interrupt_num
irq_of-IsFiled reg = rw (line_lem reg) (elim (Bool-cases (ltb (reg % 256) 8)) [
  | inl first ↦ rw first (ground arith, ground arith)
  | inr later ↦ rw later (elim (Bool-cases (ltb (reg % 256) 16)) [
    | inl second ↦ rw second (ground arith, ground arith)
    | inr past ↦ rw past (ground arith)
  ])
])
  where
    line_lem : (reg : ℕ) → u8 (get_bits 32 0 8 reg) ≡ reg % 256
    line_lem reg = rw (get_bits-arith 32 0 8 reg refl) (omega arith)

module _ (P : Ports) (space : ConfigSpace P) (pci : Pci) (a : PciAddress)
    (io : pci.pci_io ≡ pci_ports) where
  -- Bus mastering is enabled by writing back what the command register holds with its bit 2 set; no
  -- other register of any device changes.
  pub enable_bus_mastering-Only :
      (s : P.State)
      → (after : P.State) × (enable_bus_mastering P pci a s ≡ some after)
        × ((v : ℕ)
            → space.value after v ≡ (
                if v == address_word a 4
                then space.stored
                    (address_word a 4)
                    (set_bit 32 2 true (space.value s (address_word a 4)))
                else space.value s v))
  unfolding enable_bus_mastering read_register write_register
  enable_bus_mastering-Only s =
      let (s1, e, same) = reads P space pci a io 1 s in
      let (s2, f, wrote) =
        writes P space pci a io 1 (set_bit 32 2 true (space.value s (address_word a 4))) s1 in
      rw (e, f)
        (
          s2,
          refl,
          λ v.
              wrote v
              ∙ ap
                  (λ n.
                    if v == address_word a 4
                    then space.stored (address_word a 4)
                        (set_bit 32 2 true (space.value s (address_word a 4)))
                    else n)
                  (same v),
        )

  -- The interrupt of a device is filed under 0x40 and its line if the line is below 16, and is an
  -- error otherwise; nothing changes.
  pub get_irq_num-IsFiled :
      (s : P.State)
      → let line = space.value s (register_word a 0xf) % 256 in
        (after : P.State) × (irq : Result IrqId InvalidIrq) × (get_irq_num P pci a s
          ≡ some (after, irq))
        × IsSame P space s after
        × IsFiled line irq
  unfolding get_irq_num
  get_irq_num-IsFiled s =
      let (s1, e, same) = reads P space pci a io 0xf s in
      rw e (s1, _, refl, same, irq_of-IsFiled (space.value s (register_word a 0xf)))
