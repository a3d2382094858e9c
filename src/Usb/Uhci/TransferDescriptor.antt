-- ===== src/Usb/Uhci/TransferDescriptor.antt =====
-- src/usb/uhci.rs: transfer descriptors. A descriptor is eight words: the link, the control and
-- status word, the token, the pointer to the data, and four that only software uses.
pub mod Laws
use stream_os.Base.{
  ℕ, ◌+◌, ◌^◌, ◌<◌, List, [], ◌∷◌, Option, none, some, ◌>>=◌, ◌>>◌, assert, Bool, true, false,
  if◌then◌else◌, ◌==◌, ltb, leb, sub_u16, u8, u16, length, replicate, Result, ok, err,
}
use stream_os.BitManipulation.{set_bits, set_bit, get_bits, get_bit}
use stream_os.Usb.Packet.{Pid, UsbPacket, setup, input, output}
use stream_os.Usb.Uhci.Link.{LinkPointer, no_link, td, set_link_pointer, get_link_pointer}

pub record TransferDescriptor : Type 0 where
  pub link_word : ℕ
  pub control : ℕ
  pub token : ℕ
  pub pointer : ℕ
  pub rest : List ℕ

abbrev pub zeroed : TransferDescriptor
zeroed = record { link_word = 0; control = 0; token = 0; pointer = 0; rest = replicate 4 0 }

unfoldable pub link_pointer : TransferDescriptor → LinkPointer
unfolding get_link_pointer
link_pointer d = get_link_pointer d.link_word

unfoldable pub set_link : LinkPointer → TransferDescriptor → Option TransferDescriptor
set_link ptr d = set_link_pointer ptr d.link_word >>= λ word. some (record d { link_word = word })

unfoldable pub spd : TransferDescriptor → Bool
spd d = get_bit 32 29 d.control

unfoldable pub set_spd : Bool → TransferDescriptor → TransferDescriptor
set_spd val d = record d { control = set_bit 32 29 val d.control }

unfoldable pub low_speed : TransferDescriptor → Bool
low_speed d = get_bit 32 26 d.control

unfoldable pub set_low_speed : Bool → TransferDescriptor → TransferDescriptor
set_low_speed val d = record d { control = set_bit 32 26 val d.control }

unfoldable pub isochronus_select : TransferDescriptor → Bool
isochronus_select d = get_bit 32 25 d.control

unfoldable pub set_isochronus_select : Bool → TransferDescriptor → TransferDescriptor
set_isochronus_select val d = record d { control = set_bit 32 25 val d.control }

unfoldable pub interrupt_on_complete : TransferDescriptor → Bool
interrupt_on_complete d = get_bit 32 24 d.control

unfoldable pub set_interrupt_on_complete : Bool → TransferDescriptor → TransferDescriptor
set_interrupt_on_complete val d = record d { control = set_bit 32 24 val d.control }

unfoldable pub err_counter : TransferDescriptor → ℕ
err_counter d = u8 (get_bits 32 27 2 d.control)

unfoldable pub set_err_counter : ℕ → TransferDescriptor → Option TransferDescriptor
set_err_counter val d =
    assert (leb val 3) >> some (record d { control = set_bits 32 27 2 val d.control })

unfoldable pub status : TransferDescriptor → ℕ
status d = u8 (get_bits 32 16 8 d.control)

unfoldable pub set_status : ℕ → TransferDescriptor → TransferDescriptor
set_status val d = record d { control = set_bits 32 16 8 val d.control }

unfoldable pub actlen : TransferDescriptor → ℕ
actlen d = u16 (get_bits 32 0 11 d.control)

unfoldable pub set_actlen : ℕ → TransferDescriptor → Option TransferDescriptor
set_actlen val d =
    assert (ltb val (2 ^ 11)) >> some (record d { control = set_bits 32 0 11 val d.control })

-- A length is stored less one, and zero as all ones.
abbrev pub encoded_length : ℕ → ℕ
encoded_length len = if len == 0 then 0x7ff else sub_u16 len 1

unfoldable pub set_maxlen : ℕ → TransferDescriptor → Option TransferDescriptor
set_maxlen len d =
    assert (leb len 1280)
    >> some (record d { token = set_bits 32 21 11 (encoded_length len) d.token })

abbrev pub decoded_length : ℕ → ℕ
decoded_length ret = if ret == 0x7ff then 0 else u16 (ret + 1)

unfoldable pub maxlen : TransferDescriptor → ℕ
maxlen d = decoded_length (u16 (get_bits 32 21 11 d.token))

unfoldable pub data_toggle : TransferDescriptor → Bool
data_toggle d = get_bit 32 19 d.token

unfoldable pub set_data_toggle : Bool → TransferDescriptor → TransferDescriptor
set_data_toggle val d = record d { token = set_bit 32 19 val d.token }

unfoldable pub endpoint : TransferDescriptor → ℕ
endpoint d = u8 (get_bits 32 15 4 d.token)

unfoldable pub set_endpoint : ℕ → TransferDescriptor → Option TransferDescriptor
set_endpoint val d = assert (ltb val 16) >> some (record d { token = set_bits 32 15 4 val d.token })

unfoldable pub address : TransferDescriptor → ℕ
address d = u8 (get_bits 32 8 7 d.token)

unfoldable pub set_address : ℕ → TransferDescriptor → Option TransferDescriptor
set_address val d = assert (leb val 0x7e) >> some (record d { token = set_bits 32 8 7 val d.token })

unfoldable pub pid : TransferDescriptor → ℕ
pid d = u8 (get_bits 32 0 8 d.token)

unfoldable pub set_pid : ℕ → TransferDescriptor → TransferDescriptor
set_pid val d = record d { token = set_bits 32 0 8 val d.token }

unfoldable pub data_pointer : TransferDescriptor → ℕ
data_pointer d = d.pointer

unfoldable pub set_data : ℕ → TransferDescriptor → TransferDescriptor
set_data ptr d = record d { pointer = ptr }

-- `TransferDescriptorStorage`, with the address of the descriptor in its box.
pub record Storage : Type 0 where
  pub at : ℕ
  pub descriptor : TransferDescriptor
  pub buf : List ℕ

pub data InvalidPacketErr : Type 0 where
  invalid_packet : InvalidPacketErr

abbrev pub pid_value : Pid → ℕ
pid_value setup = 0b00101101
pid_value output = 0b11100001
pid_value input = 0b01101001

-- The descriptor that `generate_td` fills, whose data stands at `data_ptr`.
abbrev pub filled : UsbPacket → ℕ → Option TransferDescriptor
unfolding set_link set_low_speed set_status set_maxlen set_address set_endpoint set_pid set_data
    set_data_toggle
filled packet data_ptr = do
  d1 ← set_link no_link zeroed
  let d2 = set_low_speed true d1
  let d3 = set_status 0x80 d2
  d4 ← set_maxlen (length packet.data_bytes) d3
  d5 ← set_address packet.address d4
  d6 ← set_endpoint packet.endpoint d5
  let d7 = set_pid (pid_value packet.pid) d6
  let d8 = set_data data_ptr d7
  some (set_data_toggle packet.data_toggle d8)

-- `at` and `data_ptr` are the addresses that the allocator gave the box and the data. The length is
-- converted to 16 bits, which cannot fail below the limit.
unfoldable pub generate_td : ℕ → ℕ → UsbPacket → Option (Result Storage InvalidPacketErr)
unfolding filled
generate_td at data_ptr packet =
    if ltb 1024 (length packet.data_bytes)
    then some (err invalid_packet)
    else filled packet data_ptr >>= λ d.
        some (ok (record { at = at; descriptor = d; buf = packet.data_bytes }))

unfoldable pub chain_tds : List Storage → Option (List Storage)
unfolding set_link set_interrupt_on_complete
chain_tds [] = none
chain_tds (last ∷ []) =
    some (record last { descriptor = set_interrupt_on_complete true last.descriptor } ∷ [])
chain_tds (first ∷ second ∷ tds) =
    let later = chain_tds (second ∷ tds) in
    set_link (td second.at) first.descriptor >>= λ d.
    later >>= λ chained. some (record first { descriptor = d } ∷ chained)
