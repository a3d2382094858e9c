-- ===== src/Interrupts/Laws.antt =====
-- The parts of a gate descriptor stand where the processor reads them.
use stream_os.Base.{◌/◌, ◌%◌, ◌^◌, ◌≡◌, arith, bool_to_nat}
use stream_os.BitManipulation.{get_bits}
use stream_os.BitManipulation.Laws.{bit_fields}
use stream_os.Interrupts.{GateDescriptorNewArgs, new_gate}

-- The two halves of the handler's address, the segment selector, the gate type (modulo 16), the
-- privilege level (modulo 4) and the present bit are read back from their places, and the reserved
-- bits, 32 to 39 and 44, are zero.
pub new_gate_fields :
    (args : GateDescriptorNewArgs)
    → let g = new_gate args in
      (get_bits 64 0 16 g ≡ args.offset % 2 ^ 16)
      × (get_bits 64 48 16 g ≡ args.offset / 2 ^ 16 % 2 ^ 16)
      × (get_bits 64 16 16 g ≡ args.segment_selector % 2 ^ 16)
      × (get_bits 64 40 4 g ≡ args.gate_type % 16)
      × (get_bits 64 45 2 g ≡ args.dpl % 4)
      × (get_bits 64 47 1 g ≡ bool_to_nat args.p)
      × (get_bits 64 32 8 g ≡ 0)
      × (get_bits 64 44 1 g ≡ 0)
unfolding new_gate
new_gate_fields args = (
  simp bit_fields,
  simp bit_fields,
  simp bit_fields,
  simp bit_fields,
  simp bit_fields,
  simp bit_fields (ground arith),
  simp bit_fields,
  simp bit_fields,
)
