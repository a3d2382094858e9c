-- ===== src/Tests/Frames.antt =====
-- Ethernet, ARP, IPv4, UDP and TCP frames.
use stream_os.Base.{
  ℕ, ◌<◌, ◌≡◌, ◌↔◌, refl, arith, List, [], ◌∷◌, ◌++◌, none, some, ok, replicate, u16_be_at, true,
  false,
}
use stream_os.BitManipulation.Laws.{get_bits-arith}
use stream_os.Net.Address.{IpAddr, MacAddr}
use stream_os.Net.Checksum.{calculate_ipv4_checksum}
use stream_os.Net.Checksum.Laws.{checksum_verifies}
use stream_os.Net.Ethernet
use stream_os.Net.Ethernet.{
  EthernetFrameParams, generate_ethernet_frame, has_dot1q, payload_offset, ether_type_offset,
}
use stream_os.Net.Arp
use stream_os.Net.Arp.{ArpFrameParams, generate_arp_frame}
use stream_os.Net.Ipv4
use stream_os.Net.Ipv4.{Ipv4Protocol, generate_ipv4_frame, total_length, header_length, ihl}
use stream_os.Net.Ipv4.Laws.{ipv4_payload-panics_iff}
use stream_os.Net.Udp
use stream_os.Net.Udp.{udp_length, udp_data, generate_udp_frame}
use stream_os.Net.Parse.{parse_packet}
use stream_os.Net.Parse.Laws.{IsStub, parse_packet-panics_iff}
use stream_os.Net.Tcp.Flags.{TcpFlagsParams}
use stream_os.Net.Tcp.Frame.{TcpFrameParams, generate_tcp_frame}
use stream_os.Net.Tcp.Frame.RoundTrip as TcpRoundTrip
use stream_os.Net.Tcp.Frame.RoundTrip.{generate_tcp_frame-IsRead}

abbrev pub here : IpAddr
here = record { a0 = 192; a1 = 168; a2 = 122; a3 = 55 }

abbrev pub there : IpAddr
there = record { a0 = 192; a1 = 168; a2 = 122; a3 = 1 }

abbrev card : MacAddr
card = record { m0 = 0x52; m1 = 0x54; m2 = 0; m3 = 0x12; m4 = 0x34; m5 = 0x56 }

abbrev text : List ℕ
text = 0x68 ∷ 0x69 ∷ 0x21 ∷ []

checksum_of_six :
    calculate_ipv4_checksum ((0x45 ∷ 0 ∷ []) ++ (0 ∷ 0 ∷ (0x12 ∷ 0x34 ∷ []))) ≡ some 0xa8cb
unfolding calculate_ipv4_checksum
checksum_of_six = refl

checksum_verifies_example :
    calculate_ipv4_checksum (0x45 ∷ 0 ∷ 0xa8 ∷ 0xcb ∷ 0x12 ∷ 0x34 ∷ []) ≡ some 0
checksum_verifies_example =
    checksum_verifies (0x45 ∷ 0 ∷ []) (0x12 ∷ 0x34 ∷ []) 0xa8cb refl refl (omega arith)
      (omega arith) checksum_of_six

abbrev sent_params : EthernetFrameParams
sent_params = record {
  dest_mac = card;
  source_mac = card;
  ether_type = Ethernet.ipv4;
  payload = text;
}

abbrev arp_params : ArpFrameParams
arp_params = record {
  hardware_type = 1;
  protocol_type = 0x0800;
  hardware_address_length = 6;
  protocol_address_length = 4;
  operation = Arp.reply;
  sender_hardware_address = card;
  sender_protocol_address = here;
  target_hardware_address = card;
  target_protocol_address = there;
}

-- A header whose total length is 0.
abbrev short_total : List ℕ
short_total = 0 ∷ 0 ∷ 0 ∷ replicate 16 0

short_total_accepted : Ipv4.new (0x45 ∷ short_total) ≡ some (ok (0x45 ∷ short_total))
unfolding Ipv4.new header_length ihl total_length u16_be_at
short_total_accepted = simp (get_bits-arith 8 0 4 0x45 refl) refl

short_total_read : total_length (0x45 ∷ short_total) ≡ some 0
unfolding total_length u16_be_at
short_total_read = refl

ipv4_payload-panics_iff_example : (Ipv4.payload (0x45 ∷ short_total) ≡ none) ↔ (0 < 20)
ipv4_payload-panics_iff_example =
    ipv4_payload-panics_iff 0x45 short_total (0x45 ∷ short_total) 0 short_total_accepted
      short_total_read

abbrev short_udp : List ℕ
short_udp = 0 ∷ 1 ∷ 0 ∷ 2 ∷ 0 ∷ 7 ∷ 0 ∷ 0 ∷ []

short_udp_accepted : Udp.new short_udp ≡ some (ok short_udp)
unfolding Udp.new udp_length u16_be_at
short_udp_accepted = refl

short_udp_length : udp_length short_udp ≡ some 7
unfolding udp_length u16_be_at
short_udp_length = refl

parse_packet-panics_iff_example : (parse_packet text ≡ none) ↔ IsStub text
parse_packet-panics_iff_example = parse_packet-panics_iff text

abbrev all_flags : TcpFlagsParams
all_flags = record {
  cwr = true;
  ece = false;
  urg = true;
  ack = false;
  psh = true;
  rst = false;
  syn = true;
  fin = false;
}

abbrev segment : TcpFrameParams
segment = record {
  source_address = there;
  dest_address = here;
  source_port = 40000;
  dest_port = 80;
  seq_num = 1000;
  ack_num = 2000;
  flags = 0x18;
  window_size = 512;
  urgent_ptr = 0;
  payload = text;
}

segment_fits : TcpRoundTrip.IsFrameParams segment
segment_fits = record {
  source_fits = omega arith;
  dest_fits = omega arith;
  seq_fits = omega arith;
  ack_fits = omega arith;
  flags_fits = omega arith;
  window_fits = omega arith;
  urgent_fits = omega arith;
  source_ip = omega arith;
  dest_ip = omega arith;
  body = omega arith;
}

generate_tcp_frame-IsRead_example :
    (f : List ℕ) × (generate_tcp_frame segment ≡ some f) × TcpRoundTrip.IsRead segment f
generate_tcp_frame-IsRead_example = generate_tcp_frame-IsRead segment segment_fits
