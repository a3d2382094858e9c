-- ===== src/Usb/Packet/Laws.antt =====
-- A setup request is read back from its packet.
use stream_os.Base.{◌^◌, ◌<◌, ◌≡◌, refl, ap, arith, some, u16_le_at, length}
use stream_os.Usb.Packet.{
  UsbSetupRequestParams, setup_packet, set_request_type, set_request, set_value, set_index,
  set_length, request_type, request, value, index, request_length, request_value,
}

module _ (params : UsbSetupRequestParams) where
  -- The eight bytes of a request hold its parts where the getters read them: the two single bytes as
  -- they are, and the three numbers if they fit in 16 bits. The packet is addressed as asked.
  setup_packet-IsRead :
      params.value < 2 ^ 16
      → params.index < 2 ^ 16
      → params.length < 2 ^ 16
      → let packet = setup_packet params in
        (request_type packet.data_bytes ≡ some params.request_type)
        × (request packet.data_bytes ≡ some (request_value params.request))
        × (value packet.data_bytes ≡ some params.value)
        × (index packet.data_bytes ≡ some params.index)
        × (request_length packet.data_bytes ≡ some params.length)
        × (length packet.data_bytes ≡ 8)
        × (packet.address ≡ params.address)
        × (packet.pid ≡ params.pid)
  unfolding setup_packet set_request_type set_request set_value set_index set_length request_type
      request value index request_length u16_le_at
  setup_packet-IsRead hv hi hl = (
    refl,
    refl,
    ap some (omega arith),
    ap some (omega arith),
    ap some (omega arith),
    refl,
    refl,
    refl,
  )
