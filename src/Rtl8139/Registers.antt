-- ===== src/Rtl8139/Registers.antt =====
-- src/rtl8139.rs: how the registers of the card are set up. A register is read back after it is
-- written, and an error tells of a value that it did not take.
pub mod Laws
use stream_os.Base.{
  ℕ, zero, suc, ◌+◌, ◌^◌, List, [], ◌∷◌, Option, none, some, Bool, true, false, not, if◌then◌else◌,
  ◌==◌, ltb, usize, Result, ok, err, bit_and,
}
use stream_os.BitManipulation.{set_bits, set_bit, get_bit}

-- A card: what volatile reads and writes of some bytes at an address do.
pub record Card : Type 1 where
  pub State : Type 0
  pub read : (num_bytes addr : ℕ) → State → State × ℕ
  pub write : (num_bytes addr val : ℕ) → State → State

abbrev pub command_register_offset : ℕ
command_register_offset = 0x37

abbrev pub rbstart_offset : ℕ
rbstart_offset = 0x30

abbrev pub receive_config_offset : ℕ
receive_config_offset = 0x44

abbrev pub interrupt_mask_offset : ℕ
interrupt_mask_offset = 0x3c

abbrev pub interrupt_status_offset : ℕ
interrupt_status_offset = 0x3e

abbrev pub transmit_config_offset : ℕ
transmit_config_offset = 0x40

abbrev pub transmit_status_offset : ℕ
transmit_status_offset = 0x10

abbrev pub transmit_data_offset : ℕ
transmit_data_offset = 0x20

abbrev pub capr_offset : ℕ
capr_offset = 0x38

abbrev pub cbr_offset : ℕ
cbr_offset = 0x3a

pub record ValueNotSet : Type 0 where
  pub set : ℕ
  pub retreived : ℕ

pub data InitReceiveBufferError : Type 0 where
  write_receive_buffer : ValueNotSet → InitReceiveBufferError
  set_receive_buffer_size_failed : ValueNotSet → InitReceiveBufferError

pub data SetTransmitConfigError : Type 0 where
  enable_loopback_failed : ValueNotSet → SetTransmitConfigError
  enable_append_crc_failed : ValueNotSet → SetTransmitConfigError

-- The values that registers are given, over what they held.
abbrev pub receive_size : ℕ → ℕ
receive_size val = set_bits 32 11 2 0b11 val

abbrev pub both_enabled : ℕ → ℕ
both_enabled val = set_bits 8 2 2 0b11 val

abbrev pub loopback : ℕ → ℕ
loopback val = set_bits 32 17 2 0b11 val

abbrev pub append_crc : ℕ → ℕ
append_crc val = set_bit 32 16 true val

abbrev pub receive_configuration : ℕ → ℕ
receive_configuration val =
    let v1 = set_bits 32 0 6 0x00 val in
    let v2 = set_bit 32 1 true v1 in let v3 = set_bit 32 3 true v2 in set_bit 32 7 true v3

-- The two halves of a result that may fail, one after the other.
abbrev pub or_else {ℓ} :
    {E : Type ℓ} → Result (Unit {0}) ValueNotSet → (ValueNotSet → E) → Result (Unit {0}) E
or_else (ok u) f = ok u
or_else (err e) f = err (f e)

module _ (C : Card) (base : ℕ) where
  abbrev pub reg : ℕ → ℕ
  reg offset = usize (base + offset)

  -- A write, and the read that checks it.
  unfoldable pub write_checked : ℕ → ℕ → ℕ → C.State → C.State × Result (Unit {0}) ValueNotSet
  write_checked n offset val s =
      let (s1, new_val) = C.read n (reg offset) (C.write n (reg offset) val s) in
      (s1, if new_val == val then ok tt else err (record { set = val; retreived = new_val }))

  -- A register's new value from its old one, and the read that checks it.
  unfoldable pub update_checked :
      ℕ → ℕ → (ℕ → ℕ) → C.State → C.State × Result (Unit {0}) ValueNotSet
  update_checked n offset change s =
      let (s1, val) = C.read n (reg offset) s in write_checked n offset (change val) s1

  -- The wait for the end of the reset; `none` if it does not come within the given number of reads.
  unfoldable pub await_reset : ℕ → C.State → Option C.State
  await_reset zero s = none
  await_reset (suc reads) s =
      let (s1, val) = C.read 1 (reg command_register_offset) s in
      let later = await_reset reads s1 in if get_bit 8 4 val then later else some s1

  unfoldable pub reset_device : ℕ → C.State → Option C.State
  reset_device reads s =
      let (s1, val) = C.read 1 (reg command_register_offset) s in
      await_reset reads (C.write 1 (reg command_register_offset) (set_bit 8 4 true val) s1)

  unfoldable pub write_receive_buffer_address :
      ℕ → C.State → C.State × Result (Unit {0}) ValueNotSet
  write_receive_buffer_address addr s = write_checked 4 rbstart_offset addr s

  unfoldable pub set_receive_buffer_size : C.State → C.State × Result (Unit {0}) ValueNotSet
  set_receive_buffer_size s = update_checked 4 receive_config_offset receive_size s

  -- What follows a step that may fail.
  abbrev pub and_then {ℓ} :
      {E : Type ℓ}
      → C.State × Result (Unit {0}) ValueNotSet
      → (ValueNotSet → E)
      → (C.State → C.State × Result (Unit {0}) E)
      → C.State × Result (Unit {0}) E
  and_then (s, ok u) f next = next s
  and_then (s, err e) f next = (s, err (f e))

  abbrev pub map_err {ℓ} :
      {E : Type ℓ}
      → C.State × Result (Unit {0}) ValueNotSet
      → (ValueNotSet → E)
      → C.State × Result (Unit {0}) E
  map_err (s, r) f = (s, or_else r f)

  -- `rx_buffer` is the address of the new buffer.
  unfoldable pub init_receive_buffer :
      ℕ → C.State → C.State × Result (Unit {0}) InitReceiveBufferError
  init_receive_buffer rx_buffer s =
      and_then (write_receive_buffer_address rx_buffer s) write_receive_buffer
        λ s1. map_err (set_receive_buffer_size s1) set_receive_buffer_size_failed

  unfoldable pub set_interrupt_mask : C.State → C.State
  set_interrupt_mask s = C.write 2 (reg interrupt_mask_offset) 0x5 s

  unfoldable pub clear_interrupt : C.State → C.State × Bool
  clear_interrupt s =
      let (s1, val) = C.read 2 (reg interrupt_status_offset) s in
      (C.write 2 (reg interrupt_status_offset) 0x05 s1, ltb 0 (bit_and val 0x5))

  unfoldable pub enable_transmit_receive : C.State → C.State × Result (Unit {0}) ValueNotSet
  enable_transmit_receive s = update_checked 1 command_register_offset both_enabled s

  unfoldable pub enable_loopback : C.State → C.State × Result (Unit {0}) ValueNotSet
  enable_loopback s = update_checked 4 transmit_config_offset loopback s

  unfoldable pub enable_append_crc : C.State → C.State × Result (Unit {0}) ValueNotSet
  enable_append_crc s = update_checked 4 transmit_config_offset append_crc s

  unfoldable pub set_transmit_config :
      Bool → C.State → C.State × Result (Unit {0}) SetTransmitConfigError
  set_transmit_config with_loopback s =
      let crc : C.State → C.State × Result (Unit {0}) SetTransmitConfigError =
        λ s1. map_err (enable_append_crc s1) enable_append_crc_failed in
      if with_loopback then and_then (enable_loopback s) enable_loopback_failed crc else crc s

  unfoldable pub init_receive_configuration : C.State → C.State × Result (Unit {0}) ValueNotSet
  init_receive_configuration s = update_checked 4 receive_config_offset receive_configuration s

  unfoldable pub init_capr : C.State → C.State × Result (Unit {0}) ValueNotSet
  init_capr s = write_checked 2 capr_offset 0xfff0 s
