-- ===== src/Rtl8139/Packets.antt =====
-- src/rtl8139.rs: packets to and from the card. The receive buffer is read through its address; it
-- is the bytes from there on.
pub mod Laws
use stream_os.Base.{
  ℕ, zero, suc, ◌+◌, ◌*◌, ◌%◌, ◌^◌, ◌-◌, List, [], ◌∷◌, length, Bool, false, if◌then◌else◌, ◌==◌,
  ltb, u8, u16, u32, usize, bit_and, not, Result, ok, err,
}
use stream_os.BitManipulation.{set_bits, set_bit, get_bit, not_word}
use stream_os.Rtl8139.Registers.{
  Card, reg, transmit_data_offset, transmit_status_offset, capr_offset, cbr_offset,
}

abbrev pub bytes_at : (ℕ → ℕ) → ℕ → ℕ → List ℕ
bytes_at buf at zero = []
bytes_at buf at (suc n) = buf at ∷ bytes_at buf (at + 1) n

-- The 16 bits at an index.
abbrev pub u16_at : (ℕ → ℕ) → ℕ → ℕ
u16_at buf at = buf (at + 1) * 256 + buf at

-- The packet that starts behind the read position `capr`: a header, a length, and the bytes.
unfoldable pub packet_at : (ℕ → ℕ) → ℕ → List ℕ
packet_at buf capr =
    let start_offset = u16 (capr + 16) in
    bytes_at buf (start_offset + 4) (u16_at buf (start_offset + 2))

-- The read position behind that packet, aligned to four bytes.
unfoldable pub next_capr : (ℕ → ℕ) → ℕ → ℕ
next_capr buf capr =
    let start_offset = u16 (capr + 16) in
    let packet_length = u16_at buf (start_offset + 2) in
    bit_and (u16 (capr + u16 (packet_length + 7))) (not_word 16 0b11)

pub data PacketTooShort : Type 0 where
  too_short : PacketTooShort

-- The state of the driver: the descriptor for the next packet, and the number of the next future.
pub record Inner : Type 0 where
  pub base : ℕ
  pub transmit_idx : ℕ
  pub future_id : ℕ

module _ (C : Card) where
  unfoldable pub get_packet : ℕ → (ℕ → ℕ) → C.State → C.State × List ℕ
  get_packet base receive_buf s =
      let (s1, capr) = C.read 2 (reg C base capr_offset) s in
      let (s2, cbr) = C.read 2 (reg C base cbr_offset) s1 in (s2, packet_at receive_buf capr)

  unfoldable pub increment_capr : ℕ → (ℕ → ℕ) → C.State → C.State
  increment_capr base receive_buf s =
      let (s1, capr) = C.read 2 (reg C base capr_offset) s in
      C.write 2 (reg C base capr_offset) (next_capr receive_buf capr) s1

  -- `Inner::read`, with the packet that `on_read` gets.
  unfoldable pub read : ℕ → (ℕ → ℕ) → C.State → C.State × List ℕ
  read base receive_buf s =
      let (s1, packet) = get_packet base receive_buf s in
      (increment_capr base receive_buf s1, packet)

  -- A poll of `ReceiverWaiter`: whether there is a packet.
  unfoldable pub poll_receiver : ℕ → C.State → C.State × Bool
  poll_receiver base s =
      let (s1, capr) = C.read 2 (reg C base capr_offset) s in
      let (s2, cbr) = C.read 2 (reg C base cbr_offset) s1 in (s2, not (u16 (capr + 16) == cbr))

  -- The new status of a descriptor: the length of its packet, and given to the card.
  abbrev pub transmit_status : ℕ → ℕ → ℕ
  transmit_status packet_length status =
      let s1 = set_bits 32 0 12 (u32 packet_length) status in set_bit 32 13 false s1

  -- The part of `transmit_data_and_wait` before it waits; `data_addr` is the address of the packet.
  unfoldable pub transmit_data : ℕ → ℕ → ℕ → ℕ → C.State → C.State
  transmit_data transmit_data_ptr transmit_status_reg data_addr data_length s =
      let s1 = C.write 4 transmit_data_ptr data_addr s in
      let (s2, status) = C.read 4 transmit_status_reg s1 in
      C.write 4 transmit_status_reg (transmit_status data_length status) s2

  -- A poll of `TransmissionWaiter`: whether the card gave the descriptor back.
  unfoldable pub poll_transmission : ℕ → C.State → C.State × Bool
  poll_transmission transmit_status_reg s =
      let (s1, status) = C.read 4 transmit_status_reg s in (s1, get_bit 32 13 status)

  -- `Inner::write` until it waits: the driver and the card then.
  unfoldable pub start_write : ℕ → ℕ → Inner → C.State → Result (Inner × C.State) PacketTooShort
  start_write data_addr data_length inner s =
      let extra_offset = inner.transmit_idx * 4 in
      if ltb data_length 60
      then err too_short
      else ok (
        record inner { future_id = usize (inner.future_id + 1) },
        transmit_data (reg C inner.base (transmit_data_offset + extra_offset))
            (reg C inner.base (transmit_status_offset + extra_offset)) data_addr data_length s,
      )

  -- Its end, after the wait.
  unfoldable pub end_write : Inner → Inner
  end_write inner = record inner { transmit_idx = u8 (inner.transmit_idx + 1) % 4 }

  -- The six bytes of the address from the card's first registers.
  unfoldable pub mac_from : ℕ → ℕ → C.State → C.State × List ℕ
  mac_from base zero s = (s, [])
  mac_from base (suc n) s =
      let (s1, v) = C.read 1 (reg C base (6 - suc n)) s in
      let (s2, rest) = mac_from base n s1 in (s2, v ∷ rest)

  unfoldable pub get_mac : ℕ → C.State → C.State × List ℕ
  get_mac base s = mac_from base 6 s
