-- ===== src/Packets/Wire.antt =====
-- What the packets of src/main.rs parse to, when the card of another host has appended a checksum.
use stream_os.Base.{
  ℕ, ◌+◌, ◌-◌, ◌^◌, ◌<◌, ◌≤◌, ◌≡◌, refl, subst, ltb, false, arith, List, [], ◌∷◌, ◌++◌, some, ok,
  length, replicate,
}
use stream_os.Net.Address.{IpAddr, MacAddr, mac_bytes}
use stream_os.Net.Ethernet
use stream_os.Net.Ethernet.{EtherType, EthernetFrameParams, generate_ethernet_frame}
use stream_os.Net.Ethernet.RoundTrip.{generated, length-padded, padded, generate_ethernet_frame-new}
use stream_os.Net.Arp
use stream_os.Net.Ipv4
use stream_os.Net.Ipv4.{Ipv4Protocol, generate_ipv4_frame, source_ip}
use stream_os.Net.Ipv4.RoundTrip.{IsHeader, IsRead, generate_ipv4_frame-IsRead}
use stream_os.Net.Parse.{
  ParsedPacket, arp_packet, ipv4_packet, tcp_frame, parse_arp, parse_ip, parse_inner, parse_packet,
  parse_protocol, parse_ipv4,
}
use stream_os.Packets.{accepted_by_card}

-- The bytes of a checksum, which the parsers ignore.
pub record Crc : Type 0 where
  pub c0 : ℕ
  pub c1 : ℕ
  pub c2 : ℕ
  pub c3 : ℕ

abbrev pub crc_bytes : Crc → List ℕ
crc_bytes c = c.c0 ∷ c.c1 ∷ c.c2 ∷ c.c3 ∷ []

parse_inner-arp :
    (payload : List ℕ)
    → Arp.new payload ≡ ok payload
    → parse_inner payload 0x0806 ≡ some (ok (arp_packet payload))
unfolding parse_inner parse_arp
parse_inner-arp payload accepted = ground (arith, accepted)

parse_inner-ipv4 :
    (payload : List ℕ)
    → Ipv4.new payload ≡ some (ok payload)
    → parse_inner payload 0x0800 ≡ some (ok (ipv4_packet payload))
unfolding parse_inner parse_ip
parse_inner-ipv4 payload accepted = rw accepted

-- A generated frame as it is read with the padding of its packet.
ipv4-padded :
    (segment : List ℕ) (from to : IpAddr)
    → IsHeader Ipv4Protocol.tcp from to
    → 20 + length segment < 2 ^ 16
    → (f : List ℕ) × (generate_ipv4_frame segment Ipv4Protocol.tcp from to ≡ some f)
      × IsRead segment Ipv4Protocol.tcp from f (replicate (46 - length f) 0)
ipv4-padded segment from to h fits =
    let (f, made, bare) =
      generate_ipv4_frame-IsRead segment [] Ipv4Protocol.tcp from to h refl fits in
    let (g, again, read) =
      generate_ipv4_frame-IsRead segment (replicate (46 - length f) 0) Ipv4Protocol.tcp from to h
        refl fits in
    let same : g ≡ f = cc in
    (
      f,
      made,
      subst (λ x. IsRead segment Ipv4Protocol.tcp from x (replicate (46 - length f) 0)) same read,
    )

module _ (dest source : MacAddr) (crc : Crc) where
  -- A packet as it is received.
  abbrev pub wire : EtherType → List ℕ → List ℕ
  wire kind payload =
      generate_ethernet_frame
        (record { dest_mac = dest; source_mac = source; ether_type = kind; payload = payload })
      ++ crc_bytes crc

  pub parse_packet-wire :
      (kind : EtherType) (payload : List ℕ) (inner : ParsedPacket)
      → parse_inner (padded payload) (Ethernet.ether_type_value kind) ≡ some (ok inner)
      → parse_packet (wire kind payload)
        ≡ some (ok (record { ethernet = wire kind payload; inner = inner }))
  unfolding parse_packet
  parse_packet-wire kind payload inner parsed =
      let read =
        generate_ethernet_frame-new
          (record { dest_mac = dest; source_mac = source; ether_type = kind; payload = payload })
          crc.c0 crc.c1 crc.c2 crc.c3 in
      rw (read.0, read.5, read.4, parsed)

  pub parse_packet-arp :
      (payload : List ℕ)
      → Arp.new (padded payload) ≡ ok (padded payload)
      → parse_packet (wire EtherType.arp payload)
        ≡ some (
            ok (record {
              ethernet = wire EtherType.arp payload;
              inner = arp_packet (padded payload);
            }))
  parse_packet-arp payload accepted =
      parse_packet-wire EtherType.arp payload _ (parse_inner-arp (padded payload) accepted)

  pub source_mac-wire :
      (kind : EtherType) (payload : List ℕ)
      → Ethernet.source_mac (wire kind payload) ≡ some (mac_bytes source)
  source_mac-wire kind payload =
      (generate_ethernet_frame-new
        (record { dest_mac = dest; source_mac = source; ether_type = kind; payload = payload })
        crc.c0 crc.c1 crc.c2 crc.c3).2

  pub destination_mac-wire :
      (kind : EtherType) (payload : List ℕ)
      → Ethernet.destination_mac (wire kind payload) ≡ some (mac_bytes dest)
  destination_mac-wire kind payload =
      (generate_ethernet_frame-new
        (record { dest_mac = dest; source_mac = source; ether_type = kind; payload = payload })
        crc.c0 crc.c1 crc.c2 crc.c3).1

  -- A segment in a packet, and what is read from it again.
  pub tcp-wire :
      (segment : List ℕ) (from to : IpAddr)
      → IsHeader Ipv4Protocol.tcp from to
      → 20 + length segment < 2 ^ 16
      → (f : List ℕ) × (generate_ipv4_frame segment Ipv4Protocol.tcp from to ≡ some f)
        × (parse_packet (wire EtherType.ipv4 f)
            ≡ some
                (ok (record { ethernet = wire EtherType.ipv4 f; inner = ipv4_packet (padded f) })))
        × (parse_ipv4 (padded f) ≡ some (ok (tcp_frame segment)))
        × (source_ip (padded f) ≡ some from)
  unfolding parse_ipv4 parse_protocol
  tcp-wire segment from to h fits =
      let (f, made, read) = ipv4-padded segment from to h fits in
      (
        f,
        made,
        parse_packet-wire EtherType.ipv4 f _ (parse_inner-ipv4 (padded f) read.accepted),
        rw (read.kind, read.contents),
        read.from_ip,
      )

pub length-wire :
    (dest source : MacAddr) (kind : EtherType) (payload : List ℕ)
    → 60
      ≤ length (
          generate_ethernet_frame
            (record { dest_mac = dest; source_mac = source; ether_type = kind; payload = payload }))
length-wire dest source kind payload =
    rw
      (generated
        (record { dest_mac = dest; source_mac = source; ether_type = kind; payload = payload }))
      (omega (arith, length-padded payload))

pub long_enough : (packet : List ℕ) → 60 ≤ length packet → accepted_by_card packet ≡ some packet
long_enough packet h = rw (not_short (length packet) h)
  where
    not_short : (n : ℕ) → 60 ≤ n → ltb n 60 ≡ false
    not_short n h = ground arith
