-- ===== src/Multiprocessing/Laws.antt =====
-- An interrupt command is decoded from the register as it was encoded.
use stream_os.Base.{ℕ, ◌%◌, ◌≡◌, arith}
use stream_os.BitManipulation.{get_bits}
use stream_os.BitManipulation.Laws.{bit_fields}
use stream_os.Multiprocessing.{
  InterruptCommand, CommandRegister, select_ap, send_ipi, send_init_ipi, send_deinit_ipi,
  send_startup_ipi, to_u32, delivery_mode_bits, destination_mode_bits, delivery_status_bits,
  level_bits, trigger_mode_bits, destination_shorthand_bits,
}

module _ (c : InterruptCommand) (v : ℕ) where
  -- Each part of a command is read back from its place (the vector modulo 256), and the bits that
  -- belong to no part keep the register's value: bit 13, bits 16 and 17, and bits 20 to 31.
  pub to_u32_fields :
      (get_bits 32 0 8 (to_u32 c v) ≡ c.vector % 256)
      × (get_bits 32 8 3 (to_u32 c v) ≡ delivery_mode_bits c.delivery_mode)
      × (get_bits 32 11 1 (to_u32 c v) ≡ destination_mode_bits c.destination_mode)
      × (get_bits 32 12 1 (to_u32 c v) ≡ delivery_status_bits c.delivery_status)
      × (get_bits 32 14 1 (to_u32 c v) ≡ level_bits c.level)
      × (get_bits 32 15 1 (to_u32 c v) ≡ trigger_mode_bits c.trigger_mode)
      × (get_bits 32 18 2 (to_u32 c v) ≡ destination_shorthand_bits c.destination_shorthand)
      × (get_bits 32 13 1 (to_u32 c v) ≡ get_bits 32 13 1 v)
      × (get_bits 32 16 2 (to_u32 c v) ≡ get_bits 32 16 2 v)
      × (get_bits 32 20 12 (to_u32 c v) ≡ get_bits 32 20 12 v)
  unfolding to_u32
  to_u32_fields = (
    simp bit_fields,
    simp bit_fields (ground arith),
    simp bit_fields (ground arith),
    simp bit_fields (ground arith),
    simp bit_fields (ground arith),
    simp bit_fields (ground arith),
    simp bit_fields (ground arith),
    simp bit_fields,
    simp bit_fields,
    simp bit_fields,
  )

-- What the register asks for: its destination, delivery mode, level, trigger mode and vector.
abbrev pub Asks : CommandRegister → ℕ → ℕ → ℕ → ℕ → ℕ → Type 0
Asks r id mode level trigger vector =
    (get_bits 32 24 8 r.high ≡ id)
    × (get_bits 32 8 3 r.low ≡ mode)
    × (get_bits 32 14 1 r.low ≡ level)
    × (get_bits 32 15 1 r.low ≡ trigger)
    × (get_bits 32 0 8 r.low ≡ vector)
    × (get_bits 32 18 2 r.low ≡ 0)
    × (get_bits 32 12 1 r.low ≡ 0)

-- Whatever the register held, each of the four interrupts asks for the processor and the vector that
-- it is sent with (modulo 256), and for its own mode: a fixed interrupt and the start at the page 8
-- by edge without level, and INIT by level, asserted or not. All are addressed to one processor.
pub sends-Asks :
    (id vector : ℕ) (r : CommandRegister)
    → Asks (send_ipi id vector r) (id % 256) 0 0 0 (vector % 256)
      × Asks (send_init_ipi id r) (id % 256) 5 1 1 0
      × Asks (send_deinit_ipi id r) (id % 256) 5 0 1 0
      × Asks (send_startup_ipi id r) (id % 256) 6 0 0 8
unfolding send_ipi send_init_ipi send_deinit_ipi send_startup_ipi select_ap to_u32
sends-Asks id vector r = (
  (
    simp bit_fields,
    simp bit_fields,
    simp bit_fields,
    simp bit_fields,
    simp bit_fields,
    simp bit_fields,
    simp bit_fields,
  ),
  (
    simp bit_fields,
    simp bit_fields,
    simp bit_fields,
    simp bit_fields,
    simp bit_fields,
    simp bit_fields,
    simp bit_fields,
  ),
  (
    simp bit_fields,
    simp bit_fields,
    simp bit_fields,
    simp bit_fields,
    simp bit_fields,
    simp bit_fields,
    simp bit_fields,
  ),
  (
    simp bit_fields,
    simp bit_fields,
    simp bit_fields,
    simp bit_fields,
    simp bit_fields,
    simp bit_fields,
    simp bit_fields,
  ),
)
