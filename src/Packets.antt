-- ===== src/Packets.antt =====
-- src/main.rs: what the kernel does with a received packet. The two hash maps are interfaces.
pub mod Wire
pub mod Resolution
pub mod Delivery
use stream_os.Base.{
  ℕ, List, [], ◌∷◌, ◌++◌, Option, none, some, Result, ok, err, Bool, true, false, ◌==◌, ◌&&◌, ltb,
  if◌then◌else◌, ◌>>=◌, length,
}
use mathlib.Core.Option
use stream_os.Net.Address.{IpAddr, MacAddr, ip_bytes, mac_bytes, ip_from, mac_from}
use stream_os.Net.Ethernet
use stream_os.Net.Ethernet.{EtherType, EthernetFrameParams, generate_ethernet_frame}
use stream_os.Net.Arp
use stream_os.Net.Arp.{
  ArpOperation, ArpFrameParams, params_of, generate_arp_frame, generate_arp_request,
}
use stream_os.Net.Ipv4
use stream_os.Net.Ipv4.{Ipv4Protocol, generate_ipv4_frame, source_ip}
use stream_os.Net.Udp.{udp_data}
use stream_os.Net.Parse.{
  ParsedPacket, ParsedIpv4Frame, arp_packet, ipv4_packet, unknown_packet, udp_frame, tcp_frame,
  unknown_frame, parse_packet, parse_ipv4,
}
use stream_os.Net.Tcp.State.{TcpKey, TcpState}
use stream_os.Net.Tcp.Handle.{Surroundings, Event}
use stream_os.Net.Tcp.Handle.Table.{HashMap, handle_frame}

abbrev pub static_ip : IpAddr
static_ip = record { a0 = 192; a1 = 168; a2 = 2; a3 = 2 }

abbrev pub bytes_eq : List ℕ → List ℕ → Bool
bytes_eq [] [] = true
bytes_eq [] (y ∷ ys) = false
bytes_eq (x ∷ xs) [] = false
bytes_eq (x ∷ xs) (y ∷ ys) = (x == y) && bytes_eq xs ys

-- `rtl8139.write(..).await.unwrap()`: the card refuses packets of fewer than 60 bytes.
abbrev pub accepted_by_card : List ℕ → Option (List ℕ)
accepted_by_card packet = if ltb (length packet) 60 then none else some packet

abbrev pub expect_ok {ℓ κ} : {A : Type ℓ} {E : Type κ} → Result A E → Option A
expect_ok (ok a) = some a
expect_ok (err e) = none

-- The parameters of the reply to an ARP request.
abbrev pub reply_params : ArpFrameParams → MacAddr → ArpFrameParams
reply_params params mac = record params {
  target_protocol_address = params.sender_protocol_address;
  target_hardware_address = params.sender_hardware_address;
  operation = ArpOperation.reply;
  sender_hardware_address = mac;
  sender_protocol_address = static_ip;
}

unfoldable pub reply_to : List ℕ → MacAddr → Option (List ℕ)
reply_to arp_frame mac = do
  parsed ← params_of arp_frame
  params ← expect_ok parsed
  let response = generate_arp_frame (reply_params params mac)
  dest_mac ← Arp.sender_hardware_address arp_frame >>= mac_from
  accepted_by_card (
      generate_ethernet_frame (record {
        dest_mac = dest_mac;
        source_mac = mac;
        ether_type = EtherType.arp;
        payload = response;
      }))

-- Whether a request asks for this host, by either of its addresses.
unfoldable pub asks_for : List ℕ → MacAddr → Option Bool
asks_for arp_frame mac = do
  hardware ← Arp.target_hardware_address arp_frame
  let by_ip =
      Option.map (λ ip. bytes_eq ip (ip_bytes static_ip)) (Arp.target_protocol_address arp_frame)
  if bytes_eq hardware (mac_bytes mac) then some true else by_ip

module _ (arp_table : HashMap IpAddr MacAddr) where
  -- The new table, and what is sent.
  unfoldable pub handle_arp_frame :
      List ℕ → MacAddr → arp_table.Map → Option (arp_table.Map × List (List ℕ))
  unfolding reply_to asks_for
  handle_arp_frame arp_frame mac macs = do
    operation ← Arp.operation arp_frame
    elim operation [
      | err e ↦ some (macs, [])
      | ok known ↦ elim known [
        | ArpOperation.reply ↦ (do
          sender_mac ← Arp.sender_hardware_address arp_frame >>= mac_from
          sender_ip ← Arp.sender_protocol_address arp_frame >>= ip_from
          some (arp_table.insert macs sender_ip sender_mac, []))
        | ArpOperation.request ↦ (do
          asked ← asks_for arp_frame mac
          let answered = Option.map (λ response. (macs, response ∷ [])) (reply_to arp_frame mac)
          if asked then answered else some (macs, []))
      ]
    ]

-- The frames around the response of a connection.
unfoldable pub wrap_response : List ℕ → IpAddr → MacAddr → MacAddr → Option (List ℕ)
wrap_response response remote_ip remote_mac mac = do
  ipv4_frame ← generate_ipv4_frame response Ipv4Protocol.tcp static_ip remote_ip
  accepted_by_card (
      generate_ethernet_frame (record {
        dest_mac = remote_mac;
        source_mac = mac;
        ether_type = EtherType.ipv4;
        payload = ipv4_frame;
      }))

module _ (arp_table : HashMap IpAddr MacAddr) (table : HashMap TcpKey TcpState)
    (around : Surroundings) where
  -- What the handler leaves: the tables, the packets that it sends, the calls of other parts, and
  -- whether it left the emulator.
  pub record After : Type 0 where
    pub macs : arp_table.Map
    pub states : table.Map
    pub sent : List (List ℕ)
    pub events : List Event
    pub exited : Bool

  abbrev pub idle : arp_table.Map → table.Map → After
  idle macs states = record { macs = macs; states = states; sent = []; events = []; exited = false }

  unfoldable pub handle_tcp_frame :
      List ℕ → List ℕ → List ℕ → MacAddr → arp_table.Map → table.Map → Option After
  unfolding wrap_response
  handle_tcp_frame segment ipv4_frame ethernet mac macs states = do
    remote_ip ← source_ip ipv4_frame
    handled ← handle_frame table around segment remote_ip static_ip states
    let quiet = record (idle macs handled.0) { events = handled.2 }
    elim handled.1 [
      | none ↦ some quiet
      | some response ↦ (do
        remote_mac ← Ethernet.source_mac ethernet >>= mac_from
        packet ← wrap_response response remote_ip remote_mac mac
        some (record quiet { sent = packet ∷ [] }))
    ]

  unfoldable pub handle_ipv4_frame :
      List ℕ → List ℕ → MacAddr → arp_table.Map → table.Map → Option After
  unfolding handle_tcp_frame
  handle_ipv4_frame ipv4_frame ethernet mac macs states = do
    parsed ← parse_ipv4 ipv4_frame
    elim parsed [
      | err e ↦ some (idle macs states)
      | ok inner ↦ elim inner [
        | udp_frame f ↦ (do
          text ← udp_data f
          some (record (idle macs states) {
            exited = bytes_eq text (0x65 ∷ 0x78 ∷ 0x69 ∷ 0x74 ∷ 0x0a ∷ []);
          }))
        | tcp_frame f ↦ handle_tcp_frame f ipv4_frame ethernet mac macs states
        | unknown_frame p ↦ some (idle macs states)
      ]
    ]

  -- `handle_packet`; `none` is a panic.
  unfoldable pub handle_packet : List ℕ → MacAddr → arp_table.Map → table.Map → Option After
  unfolding handle_ipv4_frame handle_arp_frame
  handle_packet packet mac macs states = do
    parsed ← parse_packet packet
    elim parsed [
      | err e ↦ some (idle macs states)
      | ok frame ↦ elim frame.inner [
        | arp_packet f ↦ (do
          answered ← handle_arp_frame arp_table f mac macs
          some (record (idle answered.0 states) { sent = answered.1 }))
        | ipv4_packet f ↦ handle_ipv4_frame f frame.ethernet mac macs states
        | unknown_packet t ↦ some (idle macs states)
      ]
    ]

-- The packet that asks for the hardware address of a host, as `demo` sends it.
unfoldable pub arp_request_packet : IpAddr → IpAddr → MacAddr → List ℕ
arp_request_packet remote_ip local_ip mac = generate_ethernet_frame (record {
  dest_mac = record { m0 = 0xff; m1 = 0xff; m2 = 0xff; m3 = 0xff; m4 = 0xff; m5 = 0xff };
  source_mac = mac;
  ether_type = EtherType.arp;
  payload = generate_arp_request remote_ip local_ip mac;
})
