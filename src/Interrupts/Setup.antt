-- ===== src/Interrupts/Setup.antt =====
-- src/interrupts.rs: how the controllers and the table of descriptors are set up. The table is loaded
-- by an instruction that is left out, and the exchange that stores it is one step.
use stream_os.Base.{
  ℕ, zero, suc, ◌+◌, ◌-◌, ◌*◌, ◌≡◌, refl, ap, List, [], ◌∷◌, Option, none, some, true, bit_or, u8,
  u32, set, length, Result, ok, err,
}
use stream_os.BitManipulation.{shr}
use stream_os.Interrupts.{new_gate, pic1_offset, pic2_offset}
use stream_os.Interrupts.Controller.{
  PicIo, InterruptHandlerData, initialized, pic_command_offset, pic_data_offset,
}
use stream_os.Interrupts.Controller.Laws.{pics}
use stream_os.Io.{
  IoRange, PortRange, in_port, out_port, request_io_range, range_already_allocated, ranges_overlap,
  OffsetOutOfRange, read_u8, write_u8, verify_offset,
}
use stream_os.Io.Ports.{Ports, try_access, and_then, Logged, accessed, log_ports}

pub data PicRemapError : Type 0 where
  remap_error : OffsetOutOfRange → PicRemapError

pub data DisableInterruptError : Type 0 where
  disable_error : OffsetOutOfRange → DisableInterruptError

pub data InitInterruptError : Type 0 where
  acquire_pic1 acquire_pic2 : InitInterruptError
  remap_pic : PicRemapError → InitInterruptError
  disable_interrupts : DisableInterruptError → InitInterruptError

-- The stub of interrupt `num`, which calls the handler at `addr`.
abbrev pub template : List ℕ
template =
    0x55 ∷ 0x89 ∷ 0xe5 ∷ 0x60 ∷ 0x6a ∷ 0x5a ∷ 0xb8 ∷ 0x00 ∷ 0x05 ∷ 0x11 ∷ 0x00 ∷ 0xff ∷ 0xd0 ∷ 0x83
    ∷ 0xc4 ∷ 0x04 ∷ 0x61 ∷ 0x89 ∷ 0xec ∷ 0x5d ∷ 0xcf ∷ []

unfoldable pub generate_interrupt_stub : ℕ → ℕ → List ℕ
generate_interrupt_stub addr num =
    let r1 = set template 5 num in
    let r2 = set r1 7 (u8 addr) in
    let r3 = set r2 8 (u8 (shr 32 addr 8)) in
    let r4 = set r3 9 (u8 (shr 32 addr 16)) in set r4 10 (u8 (shr 32 addr 24))

-- The descriptors of the interrupts from `i` on, `n` of them, whose stubs stand at the given addresses.
unfoldable pub descriptors : (ℕ → ℕ) → ℕ → ℕ → List ℕ
descriptors isr_at i zero = []
descriptors isr_at i (suc n) =
    new_gate (record {
      offset = u32 (isr_at i);
      segment_selector = 0x08;
      gate_type = 0b1111;
      dpl = 0;
      p = true;
    })
    ∷ descriptors isr_at (i + 1) n

pub record Idt : Type 0 where
  pub size : ℕ
  pub table : List ℕ

-- What `load_idt` loads.
unfoldable pub idt : (ℕ → ℕ) → Idt
idt isr_at = record { size = 256 * 8 - 1; table = descriptors isr_at 0 255 }

length-descriptors : (isr_at : ℕ → ℕ) (i n : ℕ) → length (descriptors isr_at i n) ≡ n
unfolding descriptors
length-descriptors isr_at i zero = refl
length-descriptors isr_at i (suc n) = ap suc (length-descriptors isr_at (i + 1) n)

-- The limit that is loaded with the table covers 8 bytes more than its descriptors take, wherever the
-- stubs stand: the descriptor of interrupt 255 lies behind the table.
pub idt-limit : (isr_at : ℕ → ℕ) → (idt isr_at).size + 1 ≡ 8 * length (idt isr_at).table + 8
unfolding idt
idt-limit isr_at = rw (length-descriptors isr_at 0 255) refl

module _ (P : Ports) where
  abbrev pub remap_write :
      IoRange
      → ℕ
      → ℕ
      → (P.State → P.State × Result (Unit {0}) PicRemapError)
      → P.State
      → P.State × Result (Unit {0}) PicRemapError
  remap_write io offset val next s =
      and_then P (try_access P (write_u8 io offset val) s) remap_error λ s1 done. next s1

  unfoldable pub pic_remap : ℕ → ℕ → PicIo → P.State → P.State × Result (Unit {0}) PicRemapError
  pic_remap offset1 offset2 pic_io s =
      and_then P (try_access P (read_u8 pic_io.pic1_io pic_data_offset) s) remap_error λ s1 a1.
        and_then P (try_access P (read_u8 pic_io.pic2_io pic_data_offset) s1) remap_error λ s2 a2.
          remap_write pic_io.pic1_io pic_command_offset (bit_or 0x10 0x01)
            (λ s3.
              remap_write pic_io.pic2_io pic_command_offset (bit_or 0x10 0x01)
                (λ s4.
                  remap_write pic_io.pic1_io pic_data_offset offset1
                    (λ s5.
                      remap_write pic_io.pic2_io pic_data_offset offset2
                        (λ s6.
                          remap_write pic_io.pic1_io pic_data_offset 4
                            (λ s7.
                              remap_write pic_io.pic2_io pic_data_offset 2
                                (λ s8.
                                  remap_write pic_io.pic1_io pic_data_offset 0x01
                                    (λ s9.
                                      remap_write pic_io.pic2_io pic_data_offset 0x01
                                        (λ s10.
                                          remap_write pic_io.pic1_io pic_data_offset a1
                                            (λ s11.
                                              remap_write pic_io.pic2_io pic_data_offset a2
                                                (λ s12. (s12, ok tt)) s11)
                                            s10)
                                        s9)
                                    s8)
                                s7)
                            s6)
                        s5)
                    s4)
                s3)
            s2

  unfoldable pub pic_disable_interrupts :
      PicIo → P.State → P.State × Result (Unit {0}) DisableInterruptError
  pic_disable_interrupts pic_io s =
      and_then P (try_access P (write_u8 pic_io.pic1_io pic_data_offset 0b11111011) s) disable_error
        λ s1 done.
          and_then P (try_access P (write_u8 pic_io.pic2_io pic_data_offset 0xff) s1) disable_error
            λ s2 done. (s2, ok tt)

  abbrev pub init_after :
      PicIo
      → P.State × Result (Unit {0}) DisableInterruptError
      → P.State × Result InterruptHandlerData InitInterruptError
  init_after pic_io (s, err e) = (s, err (disable_interrupts e))
  init_after pic_io (s, ok u) = (s, ok (initialized pic_io))

  abbrev pub init_remapped :
      PicIo
      → P.State × Result (Unit {0}) PicRemapError
      → P.State × Result InterruptHandlerData InitInterruptError
  init_remapped pic_io (s, err e) = (s, err (remap_pic e))
  init_remapped pic_io (s, ok u) = init_after pic_io (pic_disable_interrupts pic_io s)

  abbrev pub init_with :
      Option IoRange
      → Option IoRange
      → P.State
      → P.State × Result InterruptHandlerData InitInterruptError
  init_with none pic2_io s = (s, err acquire_pic1)
  init_with (some pic1_io) none s = (s, err acquire_pic2)
  init_with (some pic1_io) (some pic2_io) s =
      let pic_io : PicIo = record { pic1_io = pic1_io; pic2_io = pic2_io } in
      init_remapped pic_io (pic_remap pic1_offset pic2_offset pic_io s)

  -- `init`; the second range is not asked for if the first one is refused.
  unfoldable pub init :
      List PortRange
      → P.State
      → List PortRange × P.State × Result InterruptHandlerData InitInterruptError
  init allocator s =
      let (allocator1, pic1_io) = request_io_range allocator 0x20 2 in
      let (allocator2, pic2_io) = request_io_range allocator1 0xA0 2 in
      let asked : List PortRange = elim pic1_io [ none ↦ allocator1 | some io ↦ allocator2 ] in
      let (after, result) = init_with pic1_io pic2_io s in (asked, after, result)

abbrev pub wrote : ℕ → ℕ → Logged
wrote port val = accessed (out_port 1 port val)

-- On ports that nobody claimed, the set-up succeeds, whatever the controllers read: it moves their
-- interrupts to 0x40 and 0x48, and its last two accesses mask all of them but the second one of the
-- first controller, behind which the second controller stands.
pub init-log :
    (a1 a2 : ℕ)
    → init log_ports [] (record { reads = a1 ∷ a2 ∷ []; entries = [] }) ≡ (
      record { start = 0x20; end = 0x21 } ∷ record { start = 0xA0; end = 0xA1 } ∷ [],
      record {
        reads = [];
        entries =
            wrote 0xA1 0xff
            ∷ wrote 0x21 0xfb
            ∷ wrote 0xA1 a2
            ∷ wrote 0x21 a1
            ∷ wrote 0xA1 1
            ∷ wrote 0x21 1
            ∷ wrote 0xA1 2
            ∷ wrote 0x21 4
            ∷ wrote 0xA1 0x48
            ∷ wrote 0x21 0x40
            ∷ wrote 0xA0 0x11
            ∷ wrote 0x20 0x11
            ∷ accessed (in_port 1 0xA1)
            ∷ accessed (in_port 1 0x21)
            ∷ [];
      },
      ok (initialized pics),
    )
unfolding init pic_remap pic_disable_interrupts request_io_range range_already_allocated
    ranges_overlap read_u8 write_u8 verify_offset
init-log a1 a2 = refl
