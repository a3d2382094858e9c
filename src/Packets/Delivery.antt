-- ===== src/Packets/Delivery.antt =====
-- A TCP segment through all layers of src/main.rs, and back.
use stream_os.Base.{
  ℕ, ◌+◌, ◌^◌, ◌<◌, ◌≡◌, refl, List, [], ◌∷◌, ◌++◌, Option, none, some, ok, length,
}
use stream_os.Net.Address.{IpAddr, MacAddr, mac_bytes}
use stream_os.Net.Ethernet
use stream_os.Net.Ethernet.{EtherType, generate_ethernet_frame}
use stream_os.Net.Ethernet.RoundTrip.{padded}
use stream_os.Net.Ipv4.{Ipv4Protocol, generate_ipv4_frame, source_ip}
use stream_os.Net.Ipv4.RoundTrip.{IsHeader}
use stream_os.Net.Parse.{parse_packet, parse_ipv4, tcp_frame, ipv4_packet}
use stream_os.Net.Tcp.State.{TcpKey, TcpState}
use stream_os.Net.Tcp.Handle.{Surroundings, Event}
use stream_os.Net.Tcp.Handle.Table.{HashMap, handle_frame}
use stream_os.Packets.{
  static_ip, wrap_response, handle_packet, handle_ipv4_frame, handle_tcp_frame, idle,
}
use stream_os.Packets.Wire.{
  Crc, crc_bytes, source_mac-wire, destination_mac-wire, tcp-wire, length-wire, long_enough,
}

-- A packet carries a segment from one address to another: with any checksum it parses to it.
pub record Carries (packet segment : List ℕ) (from : IpAddr) (source dest : MacAddr) (crc : Crc)
    : Type 0 where
  pub ipv4_frame : List ℕ
  pub parsed :
      parse_packet (packet ++ crc_bytes crc)
      ≡ some (ok (record { ethernet = packet ++ crc_bytes crc; inner = ipv4_packet ipv4_frame }))
  pub segment_eq : parse_ipv4 ipv4_frame ≡ some (ok (tcp_frame segment))
  pub from_ip : source_ip ipv4_frame ≡ some from
  pub from_mac : Ethernet.source_mac (packet ++ crc_bytes crc) ≡ some (mac_bytes source)
  pub to_mac : Ethernet.destination_mac (packet ++ crc_bytes crc) ≡ some (mac_bytes dest)

-- A response is carried by the one packet that is sent; without one, nothing is sent.
abbrev pub Answers : Option (List ℕ) → List (List ℕ) → MacAddr → MacAddr → Crc → Type 0
Answers none sent source dest crc = sent ≡ []
Answers (some response) sent source dest crc =
    (packet : List ℕ) × (sent ≡ packet ∷ []) × Carries packet response static_ip source dest crc

-- A generated packet carries its segment, with any checksum.
pub generate-Carries :
    (segment : List ℕ) (from to : IpAddr) (source dest : MacAddr) (crc : Crc)
    → IsHeader Ipv4Protocol.tcp from to
    → 20 + length segment < 2 ^ 16
    → (f : List ℕ) × (generate_ipv4_frame segment Ipv4Protocol.tcp from to ≡ some f)
      × Carries
          (generate_ethernet_frame (record {
            dest_mac = dest;
            source_mac = source;
            ether_type = EtherType.ipv4;
            payload = f;
          }))
          segment
          from
          source
          dest
          crc
generate-Carries segment from to source dest crc h fits =
    let (f, made, parsed, inner, from_ip) = tcp-wire dest source crc segment from to h fits in
    (
      f,
      made,
      record {
        ipv4_frame = padded f;
        parsed = parsed;
        segment_eq = inner;
        from_ip = from_ip;
        from_mac = source_mac-wire dest source crc EtherType.ipv4 f;
        to_mac = destination_mac-wire dest source crc EtherType.ipv4 f;
      },
    )

wrap_response-Carries :
    (response : List ℕ) (remote_ip : IpAddr) (remote_mac mac : MacAddr) (crc : Crc)
    → IsHeader Ipv4Protocol.tcp static_ip remote_ip
    → 20 + length response < 2 ^ 16
    → (packet : List ℕ) × (wrap_response response remote_ip remote_mac mac ≡ some packet)
      × Carries packet response static_ip mac remote_mac crc
unfolding wrap_response
wrap_response-Carries response remote_ip remote_mac mac crc h fits =
    let (f, made, carries) =
      generate-Carries response static_ip remote_ip mac remote_mac crc h fits in
    (
      generate_ethernet_frame (record {
        dest_mac = remote_mac;
        source_mac = mac;
        ether_type = EtherType.ipv4;
        payload = f;
      }),
      rw made (long_enough _ (length-wire remote_mac mac EtherType.ipv4 f)),
      carries,
    )

-- A response that fits into a packet.
abbrev pub Fits : Option (List ℕ) → Type 0
Fits none = Unit
Fits (some response) = 20 + length response < 2 ^ 16

module _ (arp_table : HashMap IpAddr MacAddr) (table : HashMap TcpKey TcpState)
    (around : Surroundings) where
  -- A packet that carries a segment for this host is handled without a panic as `Tcp::handle_frame`
  -- handles the segment, if its response fits into a packet: the connections are what that leaves,
  -- the table of addresses is unchanged, and the response, if there is one, is carried back by the
  -- one packet that is sent, to the hardware address that the segment came from.
  pub packet-delivered :
      (packet segment : List ℕ) (remote_ip : IpAddr) (remote_mac dest mac : MacAddr)
      (crc back : Crc) (macs : arp_table.Map) (states after : table.Map)
      (response : Option (List ℕ)) (events : List Event)
      → Carries packet segment remote_ip remote_mac dest crc
      → IsHeader Ipv4Protocol.tcp static_ip remote_ip
      → handle_frame table around segment remote_ip static_ip states
        ≡ some (after, response, events)
      → Fits response
      → (sent : List (List ℕ)) × (handle_packet arp_table table around
            (packet ++ crc_bytes crc)
            mac
            macs
            states
          ≡ some (record (idle arp_table table around macs after) { sent = sent; events = events }))
        × Answers response sent mac remote_mac back
  unfolding handle_packet handle_ipv4_frame handle_tcp_frame
  packet-delivered packet segment remote_ip remote_mac dest mac crc back macs states after none
        events c h handled fits =
      ([], rw (c.parsed, c.segment_eq, c.from_ip, handled), refl)
  packet-delivered packet segment remote_ip remote_mac dest mac crc back macs states after
        (some response) events c h handled fits =
      let (answer, wrapped, carried) =
        wrap_response-Carries response remote_ip remote_mac mac back h fits in
      (
        answer ∷ [],
        rw (c.parsed, c.segment_eq, c.from_ip, handled, c.from_mac, wrapped),
        (answer, refl, carried),
      )
