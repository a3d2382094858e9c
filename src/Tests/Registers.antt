-- ===== src/Tests/Registers.antt =====
-- Segment descriptors.
use stream_os.Base.{◌≡◌, arith}
use stream_os.Gdt
use stream_os.Gdt.{AccessByteParams, code_params, gen_access_byte}
use stream_os.Gdt.Laws.{new_fields}

new_fields_example :
    (Gdt.base (Gdt.new 0x12345678 0xfffff 0x9b 12) ≡ 0x12345678)
    × (Gdt.limit (Gdt.new 0x12345678 0xfffff 0x9b 12) ≡ 0xfffff)
    × (Gdt.access (Gdt.new 0x12345678 0xfffff 0x9b 12) ≡ 0x9b)
    × (Gdt.flags (Gdt.new 0x12345678 0xfffff 0x9b 12) ≡ 12)
new_fields_example = new_fields 0x12345678 0xfffff 0x9b 12 (omega arith) (omega arith) (omega arith)
