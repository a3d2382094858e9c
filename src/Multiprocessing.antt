-- ===== src/Multiprocessing.antt =====
-- src/multiprocessing.rs: the interrupt commands that one processor sends to another.
pub mod Laws
pub mod Dispatcher
use stream_os.Base.{ℕ}
use stream_os.BitManipulation.{set_bits}

pub data DestinationShorthand : Type 0 where
  to_destination only_self all_including_self all_excluding_self : DestinationShorthand

pub data DeliveryMode : Type 0 where
  fixed lowest_priority smi nmi init start_up : DeliveryMode

pub data DestinationMode : Type 0 where
  physical logical : DestinationMode

pub data DeliveryStatus : Type 0 where
  idle pending : DeliveryStatus

pub data Level : Type 0 where
  deassert assert : Level

pub data TriggerMode : Type 0 where
  edge level : TriggerMode

pub record InterruptCommand : Type 0 where
  pub destination_shorthand : DestinationShorthand
  pub delivery_mode : DeliveryMode
  pub destination_mode : DestinationMode
  pub delivery_status : DeliveryStatus
  pub level : Level
  pub trigger_mode : TriggerMode
  pub vector : ℕ

abbrev pub delivery_mode_bits : DeliveryMode → ℕ
delivery_mode_bits fixed = 0b000
delivery_mode_bits lowest_priority = 0b001
delivery_mode_bits smi = 0b010
delivery_mode_bits nmi = 0b100
delivery_mode_bits init = 0b101
delivery_mode_bits start_up = 0b110

abbrev pub destination_mode_bits : DestinationMode → ℕ
destination_mode_bits physical = 0
destination_mode_bits logical = 1

abbrev pub delivery_status_bits : DeliveryStatus → ℕ
delivery_status_bits idle = 0
delivery_status_bits pending = 1

abbrev pub level_bits : Level → ℕ
level_bits deassert = 0
level_bits assert = 1

abbrev pub trigger_mode_bits : TriggerMode → ℕ
trigger_mode_bits edge = 0
trigger_mode_bits level = 1

abbrev pub destination_shorthand_bits : DestinationShorthand → ℕ
destination_shorthand_bits to_destination = 0b00
destination_shorthand_bits only_self = 0b01
destination_shorthand_bits all_including_self = 0b10
destination_shorthand_bits all_excluding_self = 0b11

-- `InterruptCommand::to_u32`, over the register's present value.
unfoldable pub to_u32 : InterruptCommand → ℕ → ℕ
to_u32 c initial_val =
    let r1 = set_bits 32 0 8 c.vector initial_val in
    let r2 = set_bits 32 8 3 (delivery_mode_bits c.delivery_mode) r1 in
    let r3 = set_bits 32 11 1 (destination_mode_bits c.destination_mode) r2 in
    let r4 = set_bits 32 12 1 (delivery_status_bits c.delivery_status) r3 in
    let r5 = set_bits 32 14 1 (level_bits c.level) r4 in
    let r6 = set_bits 32 15 1 (trigger_mode_bits c.trigger_mode) r5 in
    set_bits 32 18 2 (destination_shorthand_bits c.destination_shorthand) r6

-- The value that `select_ap` writes to the high half of the command register.
unfoldable pub select_ap : ℕ → ℕ → ℕ
select_ap id high_val = set_bits 32 24 8 id high_val

-- The two halves of the interrupt command register, as volatile reads give them.
pub record CommandRegister : Type 0 where
  pub high : ℕ
  pub low : ℕ

abbrev pub write_command : ℕ → InterruptCommand → CommandRegister → CommandRegister
write_command id command register = record {
  high = select_ap id register.high;
  low = to_u32 command register.low;
}

-- An interrupt sent to processor `id`: the register after the two writes. The loops that wait for
-- the hardware afterwards change nothing.
unfoldable pub send_ipi : ℕ → ℕ → CommandRegister → CommandRegister
unfolding select_ap to_u32
send_ipi cpu_id interrupt_num = write_command cpu_id (record {
  destination_shorthand = to_destination;
  delivery_mode = fixed;
  destination_mode = physical;
  delivery_status = idle;
  level = deassert;
  trigger_mode = edge;
  vector = interrupt_num;
})

unfoldable pub send_init_ipi : ℕ → CommandRegister → CommandRegister
unfolding select_ap to_u32
send_init_ipi id = write_command id (record {
  destination_shorthand = to_destination;
  delivery_mode = init;
  destination_mode = physical;
  delivery_status = idle;
  level = assert;
  trigger_mode = TriggerMode.level;
  vector = 0x00;
})

unfoldable pub send_deinit_ipi : ℕ → CommandRegister → CommandRegister
unfolding select_ap to_u32
send_deinit_ipi id = write_command id (record {
  destination_shorthand = to_destination;
  delivery_mode = init;
  destination_mode = physical;
  delivery_status = idle;
  level = deassert;
  trigger_mode = TriggerMode.level;
  vector = 0x00;
})

unfoldable pub send_startup_ipi : ℕ → CommandRegister → CommandRegister
unfolding select_ap to_u32
send_startup_ipi id = write_command id (record {
  destination_shorthand = to_destination;
  delivery_mode = start_up;
  destination_mode = physical;
  delivery_status = idle;
  level = deassert;
  trigger_mode = edge;
  vector = 0x8;
})
