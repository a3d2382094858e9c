-- ===== src/Net/Parse.antt =====
-- src/net/mod.rs, `parse_packet` and `parse_ipv4`.
pub mod Laws
use stream_os.Base.{ℕ, List, Option, none, some, Result, ok, err, ◌==◌, if◌then◌else◌, ◌>>=◌}
use stream_os.Net.Ethernet
use stream_os.Net.Arp
use stream_os.Net.Ipv4
use stream_os.Net.Ipv4.{Ipv4Protocol}
use stream_os.Net.Udp

pub data ParsePacketError : Type 0 where
  ethernet_error : Ethernet.InvalidEthernetFrame → ParsePacketError
  arp_error : Arp.InvalidArpFrame → ParsePacketError
  ipv4_error : Ipv4.InvalidIpv4Frame → ParsePacketError

pub data ParsedPacket : Type 0 where
  arp_packet : List ℕ → ParsedPacket
  ipv4_packet : List ℕ → ParsedPacket
  unknown_packet : ℕ → ParsedPacket

pub record ParsedEthernetFrame : Type 0 where
  pub ethernet : List ℕ
  pub inner : ParsedPacket

-- The two frames within an Ethernet frame.
unfoldable pub parse_arp : List ℕ → Option (Result ParsedPacket ParsePacketError)
parse_arp payload = elim (Arp.new payload) [
  | ok f ↦ some (ok (arp_packet f))
  | err e ↦ some (err (arp_error e))
]

unfoldable pub parse_ip : List ℕ → Option (Result ParsedPacket ParsePacketError)
parse_ip payload = do
  frame ← Ipv4.new payload
  elim frame [ ok f ↦ some (ok (ipv4_packet f)) | err e ↦ some (err (ipv4_error e)) ]

unfoldable pub parse_inner : List ℕ → ℕ → Option (Result ParsedPacket ParsePacketError)
unfolding parse_arp parse_ip
parse_inner payload t =
    if t == 0x0806
    then parse_arp payload
    else if t == 0x0800
    then parse_ip payload
    else some (ok (unknown_packet t))

unfoldable pub parse_packet : List ℕ → Option (Result ParsedEthernetFrame ParsePacketError)
unfolding parse_inner
parse_packet bytes = do
  validated ← Ethernet.new bytes
  elim validated [
    | err e ↦ some (err (ethernet_error e))
    | ok frame ↦ (do
      payload ← Ethernet.payload frame
      t ← Ethernet.ether_type frame
      parsed ← parse_inner payload t
      elim parsed [
        | err e ↦ some (err e)
        | ok inner ↦ some (ok (record { ethernet = frame; inner = inner }))
      ])
  ]

pub data ParsedIpv4Frame : Type 0 where
  udp_frame : List ℕ → ParsedIpv4Frame
  tcp_frame : List ℕ → ParsedIpv4Frame
  unknown_frame : Ipv4Protocol → ParsedIpv4Frame

-- The frame of each protocol; a `TcpFrame` is not validated.
unfoldable pub parse_protocol :
    Ipv4Protocol → List ℕ → Option (Result ParsedIpv4Frame Udp.InvalidUdpFrame)
parse_protocol Ipv4Protocol.udp frame = do
  payload ← Ipv4.payload frame
  parsed ← Udp.new payload
  elim parsed [ ok f ↦ some (ok (udp_frame f)) | err e ↦ some (err e) ]
parse_protocol Ipv4Protocol.tcp frame = do
  payload ← Ipv4.payload frame
  some (ok (tcp_frame payload))
parse_protocol (Ipv4Protocol.unknown v) frame = some (ok (unknown_frame (Ipv4Protocol.unknown v)))

unfoldable pub parse_ipv4 : List ℕ → Option (Result ParsedIpv4Frame Udp.InvalidUdpFrame)
unfolding parse_protocol
parse_ipv4 frame = do protocol ← Ipv4.protocol frame; parse_protocol protocol frame
