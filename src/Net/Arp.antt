-- ===== src/Net/Arp.antt =====
-- src/net/mod.rs, `ArpFrame` and `ArpFrameParams`.
pub mod RoundTrip
use stream_os.Base.{
  ℕ, List, [], ◌∷◌, ◌++◌, Option, none, some, Result, ok, err, ltb, ◌==◌, if◌then◌else◌, ◌>>=◌,
  length, slice, get_elem?, u16_be_at, u16_to_be_bytes,
}
use stream_os.Net.Address.{IpAddr, MacAddr, ip_bytes, mac_bytes, ip_from, mac_from}

pub data ArpOperation : Type 0 where
  request reply : ArpOperation

abbrev pub operation_value : ArpOperation → ℕ
operation_value request = 1
operation_value reply = 2

pub data UnknownArpOperation : Type 0 where
  unknown : ℕ → UnknownArpOperation

-- `ArpOperation::try_from`.
unfoldable pub operation_of : ℕ → Result ArpOperation UnknownArpOperation
operation_of value =
    if value == 1 then ok request else if value == 2 then ok reply else err (unknown value)

pub data InvalidArpFrame : Type 0 where
  invalid : ℕ → InvalidArpFrame

-- An `ArpFrame` is its packet. `ArpFrame::new`.
unfoldable pub new : List ℕ → Result (List ℕ) InvalidArpFrame
new packet = if ltb (length packet) 28 then err (invalid (length packet)) else ok packet

unfoldable pub htype : List ℕ → Option ℕ
htype packet = u16_be_at packet 0

unfoldable pub ptype : List ℕ → Option ℕ
ptype packet = u16_be_at packet 2

unfoldable pub hardware_address_length : List ℕ → Option ℕ
hardware_address_length packet = get_elem? packet 4

unfoldable pub protocol_address_length : List ℕ → Option ℕ
protocol_address_length packet = get_elem? packet 5

unfoldable pub operation : List ℕ → Option (Result ArpOperation UnknownArpOperation)
operation packet = do value ← u16_be_at packet 6; some (operation_of value)

unfoldable pub sender_hardware_address : List ℕ → Option (List ℕ)
sender_hardware_address packet = slice packet 8 14

unfoldable pub sender_protocol_address : List ℕ → Option (List ℕ)
sender_protocol_address packet = slice packet 14 18

unfoldable pub target_hardware_address : List ℕ → Option (List ℕ)
target_hardware_address packet = slice packet 18 24

unfoldable pub target_protocol_address : List ℕ → Option (List ℕ)
target_protocol_address packet = slice packet 24 28

pub record ArpFrameParams : Type 0 where
  pub hardware_type : ℕ
  pub protocol_type : ℕ
  pub hardware_address_length : ℕ
  pub protocol_address_length : ℕ
  pub operation : ArpOperation
  pub sender_hardware_address : MacAddr
  pub sender_protocol_address : IpAddr
  pub target_hardware_address : MacAddr
  pub target_protocol_address : IpAddr

-- `ArpFrameParams::try_from`. The fields are read in the order of the source; an unknown operation
-- returns before the addresses are read.
unfoldable pub params_of : List ℕ → Option (Result ArpFrameParams UnknownArpOperation)
unfolding htype ptype hardware_address_length protocol_address_length operation operation_of
    sender_hardware_address sender_protocol_address target_hardware_address target_protocol_address
params_of frame = do
  hardware_type ← htype frame
  protocol_type ← ptype frame
  hardware_length ← hardware_address_length frame
  protocol_length ← protocol_address_length frame
  op ← operation frame
  elim op [
    | err e ↦ some (err e)
    | ok known ↦ (do
      sender_hardware ← sender_hardware_address frame >>= mac_from
      target_hardware ← target_hardware_address frame >>= mac_from
      sender_protocol ← sender_protocol_address frame >>= ip_from
      target_protocol ← target_protocol_address frame >>= ip_from
      some (
          ok (record {
            hardware_type = hardware_type;
            protocol_type = protocol_type;
            hardware_address_length = hardware_length;
            protocol_address_length = protocol_length;
            operation = known;
            sender_hardware_address = sender_hardware;
            sender_protocol_address = sender_protocol;
            target_hardware_address = target_hardware;
            target_protocol_address = target_protocol;
          })))
  ]

unfoldable pub generate_arp_frame : ArpFrameParams → List ℕ
generate_arp_frame params =
    u16_to_be_bytes params.hardware_type
    ++ (u16_to_be_bytes params.protocol_type
        ++ (params.hardware_address_length ∷ params.protocol_address_length ∷ []
            ++ (u16_to_be_bytes (operation_value params.operation)
                ++ (mac_bytes params.sender_hardware_address
                    ++ (ip_bytes params.sender_protocol_address
                        ++ (mac_bytes params.target_hardware_address
                            ++ ip_bytes params.target_protocol_address))))))

unfoldable pub generate_arp_request : IpAddr → IpAddr → MacAddr → List ℕ
unfolding generate_arp_frame
generate_arp_request remote_ip local_ip mac = generate_arp_frame (record {
  hardware_type = 1;
  protocol_type = 0x0800;
  hardware_address_length = 6;
  protocol_address_length = 4;
  operation = request;
  sender_hardware_address = mac;
  sender_protocol_address = local_ip;
  target_hardware_address = record { m0 = 0; m1 = 0; m2 = 0; m3 = 0; m4 = 0; m5 = 0 };
  target_protocol_address = remote_ip;
})
