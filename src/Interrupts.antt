-- ===== src/Interrupts.antt =====
-- src/interrupts.rs: gate descriptors, and the interrupt number of each interrupt source. Port and
-- table accesses are inline assembly, and are left out.
pub mod Laws
pub mod Controller
pub mod Setup
use stream_os.Base.{ℕ, ◌+◌, bool_to_nat, Bool, u8}
use stream_os.BitManipulation.{set_bits, shr}

pub record GateDescriptorNewArgs : Type 0 where
  pub offset : ℕ
  pub segment_selector : ℕ
  pub gate_type : ℕ
  pub dpl : ℕ
  pub p : Bool

-- `GateDescriptor::new`; a descriptor is its 64-bit word.
unfoldable pub new_gate : GateDescriptorNewArgs → ℕ
new_gate args =
    let d1 = set_bits 64 0 16 args.offset 0 in
    let d2 = set_bits 64 48 16 (shr 32 args.offset 16) d1 in
    let d3 = set_bits 64 16 16 args.segment_selector d2 in
    let d4 = set_bits 64 40 4 args.gate_type d3 in
    let d5 = set_bits 64 45 2 args.dpl d4 in set_bits 64 47 1 (bool_to_nat args.p) d5

pub data IrqId : Type 0 where
  internal : ℕ → IrqId
  pic1 : ℕ → IrqId
  pic2 : ℕ → IrqId

abbrev pub pic1_offset : ℕ
pic1_offset = 0x40

abbrev pub pic2_offset : ℕ
pic2_offset = 0x48

-- The number under which `InterruptHandlerData::register` files a handler.
unfoldable pub interrupt_num : IrqId → ℕ
interrupt_num (internal i) = i
interrupt_num (pic1 i) = u8 (i + pic1_offset)
interrupt_num (pic2 i) = u8 (i + pic2_offset)
