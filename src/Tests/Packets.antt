-- ===== src/Tests/Packets.antt =====
-- Packets between the kernel and another host.
use stream_os.Base.{ℕ, ◌≡◌, ◌≢◌, refl, ap, arith, List, [], ◌∷◌, ◌++◌, Option, none, some}
use stream_os.Net.Address.{IpAddr, MacAddr, IpAddr-discrete}
use stream_os.Net.Ethernet.{EtherType, generate_ethernet_frame}
use stream_os.Net.Ipv4
use stream_os.Net.Ipv4.{Ipv4Protocol}
use stream_os.Net.Tcp.Frame.{generate_tcp_frame}
use stream_os.Net.Tcp.Frame.RoundTrip.{generate_tcp_frame-length}
use stream_os.Net.Tcp.State.{TcpKey, TcpState, uninit}
use stream_os.Net.Tcp.Handle.{handle}
use stream_os.Net.Tcp.Handle.Laws.{opening, opened, handle-syn}
use stream_os.Net.Tcp.Handle.Table.{HashMap, handle_frame, handle_frame-other}
use stream_os.Packets.{static_ip, handle_packet, idle, arp_request_packet}
use stream_os.Packets.Wire.{Crc, crc_bytes}
use stream_os.Packets.Resolution.{request-resolved}
use stream_os.Packets.Delivery.{Carries, Answers, generate-Carries, packet-delivered}
use stream_os.Tests.Frames.{there}
use stream_os.Tests.Connections.{syn_params, syn_frame, syn-Says, around, flags_read}
use stream_os.Tests.Tables.{table}

abbrev mac_here : MacAddr
mac_here = record { m0 = 0x52; m1 = 0x54; m2 = 0; m3 = 0x12; m4 = 0x34; m5 = 0x56 }

abbrev mac_there : MacAddr
mac_there = record { m0 = 2; m1 = 0; m2 = 0; m3 = 0; m4 = 0; m5 = 7 }

abbrev sum_here : Crc
sum_here = record { c0 = 1; c1 = 2; c2 = 3; c3 = 4 }

abbrev sum_there : Crc
sum_there = record { c0 = 250; c1 = 0; c2 = 17; c3 = 9 }

-- The table of addresses, as a function.
abbrev if_equal : Option MacAddr → Option MacAddr → {k l : IpAddr} → Dec (k ≡ l) → Option MacAddr
if_equal v w (yes e) = v
if_equal v w (no e) = w

abbrev update : (IpAddr → Option MacAddr) → IpAddr → MacAddr → IpAddr → Option MacAddr
update m k v l = if_equal (some v) (m l) (IpAddr-discrete l k)

update-same :
    (m : IpAddr → Option MacAddr) (k : IpAddr) (v : MacAddr) (d : Dec (k ≡ k))
    → if_equal (some v) (m k) d ≡ some v
update-same m k v (yes e) = refl
update-same m k v (no e) = absurd (e refl)

update-other :
    (m : IpAddr → Option MacAddr) (k l : IpAddr) (v : MacAddr)
    → l ≢ k
    → (d : Dec (l ≡ k)) → if_equal (some v) (m l) d ≡ m l
update-other m k l v apart (yes e) = absurd (apart e)
update-other m k l v apart (no e) = refl

abbrev arp_table : HashMap IpAddr MacAddr
arp_table = record {
  Map = IpAddr → Option MacAddr;
  get = λ m k. m k;
  insert = update;
  get-insert = λ m k v. update-same m k v (IpAddr-discrete k k);
  get-insert_ne = λ m k l v apart. update-other m k l v apart (IpAddr-discrete l k);
}

request-resolved_example :
    (reply : List ℕ) × (after : IpAddr → Option MacAddr) × (handle_packet arp_table table around
        (arp_request_packet static_ip there mac_there ++ crc_bytes sum_there)
        mac_here
        (λ ip. none)
        (λ key. none)
      ≡ some
          (record (idle arp_table table around (λ ip. none) (λ key. none)) { sent = reply ∷ [] }))
    × (handle_packet arp_table table around
          (reply ++ crc_bytes sum_here)
          mac_there
          (λ ip. none)
          (λ key. none)
        ≡ some (idle arp_table table around after (λ key. none)))
    × (after static_ip ≡ some mac_here)
request-resolved_example =
    request-resolved arp_table table around around there mac_there mac_here sum_there sum_here
      (λ ip. none) (λ ip. none) (λ key. none) (λ key. none)

-- A SYN arrives for the first time.
abbrev synned :
    (reply : List ℕ) × (generate_tcp_frame
        (opening around there static_ip syn_params syn_frame syn-Says)
      ≡ some reply)
    × (handle around syn_frame there static_ip uninit
        ≡ some (opened around there static_ip syn_params syn_frame syn-Says reply))
synned =
    handle-syn around there static_ip syn_params syn_frame syn-Says (ap (λ f. f.syn) flags_read.0)

-- The packet that the SYN arrives in.
syn_carried :
    (f : List ℕ) × (Ipv4.generate_ipv4_frame syn_frame Ipv4Protocol.tcp there static_ip ≡ some f)
    × Carries
        (generate_ethernet_frame (record {
          dest_mac = mac_here;
          source_mac = mac_there;
          ether_type = EtherType.ipv4;
          payload = f;
        }))
        syn_frame
        there
        mac_there
        mac_here
        sum_there
syn_carried =
    generate-Carries syn_frame there static_ip mac_there mac_here sum_there (omega arith)
      (omega arith)

abbrev syn_packet : List ℕ
syn_packet = generate_ethernet_frame (record {
  dest_mac = mac_here;
  source_mac = mac_there;
  ether_type = EtherType.ipv4;
  payload = syn_carried.0;
})

syn_handled :
    (after : TcpKey → Option TcpState) × (handle_frame table around syn_frame there static_ip
        (λ key. none)
      ≡ some (
        after,
        some synned.0,
        (opened around there static_ip syn_params syn_frame syn-Says synned.0).events,
      ))
syn_handled =
    let read =
      handle_frame-other table around syn_params syn_frame there static_ip (λ key. none)
        (opened around there static_ip syn_params syn_frame syn-Says synned.0) syn-Says synned.2 in
    (read.0, read.1)

packet-delivered_example :
    (sent : List (List ℕ)) × (handle_packet arp_table table around
        (syn_packet ++ crc_bytes sum_there)
        mac_here
        (λ ip. none)
        (λ key. none)
      ≡ some (record (idle arp_table table around (λ ip. none) syn_handled.0) {
        sent = sent;
        events = (opened around there static_ip syn_params syn_frame syn-Says synned.0).events;
      }))
    × Answers (some synned.0) sent mac_here mac_there sum_here
packet-delivered_example =
    packet-delivered arp_table table around syn_packet syn_frame there mac_there mac_here mac_here
      sum_there sum_here (λ ip. none) (λ key. none) syn_handled.0 (some synned.0)
      (opened around there static_ip syn_params syn_frame syn-Says synned.0).events syn_carried.2
      (omega arith) syn_handled.1 (omega (arith, generate_tcp_frame-length _ synned.0 synned.1))
