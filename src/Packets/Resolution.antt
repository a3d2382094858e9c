-- ===== src/Packets/Resolution.antt =====
-- Two hosts that run src/main.rs: the one asks for the address of the other and learns it.
use stream_os.Base.{
  ℕ, ◌≡◌, refl, arith, List, [], ◌∷◌, ◌++◌, Bool, some, ok, true, false, replicate, u16_be_at,
  if◌then◌else◌,
}
use stream_os.Net.Address.{IpAddr, MacAddr, mac_bytes}
use stream_os.Net.Ethernet.{EtherType, generate_ethernet_frame}
use stream_os.Net.Arp
use stream_os.Net.Arp.{
  ArpOperation, ArpFrameParams, generate_arp_frame, generate_arp_request, params_of,
}
use stream_os.Net.Arp.RoundTrip.{params_of-generate}
use stream_os.Net.Tcp.State.{TcpKey, TcpState}
use stream_os.Net.Tcp.Handle.{Surroundings}
use stream_os.Net.Tcp.Handle.Table.{HashMap}
use stream_os.Packets.{
  static_ip, bytes_eq, reply_params, reply_to, asks_for, handle_arp_frame, handle_packet, idle,
  arp_request_packet,
}
use stream_os.Packets.Wire.{Crc, crc_bytes, parse_packet-arp, length-wire, long_enough}

abbrev broadcast : MacAddr
broadcast = record { m0 = 0xff; m1 = 0xff; m2 = 0xff; m3 = 0xff; m4 = 0xff; m5 = 0xff }

abbrev request_params : IpAddr → MacAddr → ArpFrameParams
request_params local_ip mac = record {
  hardware_type = 1;
  protocol_type = 0x0800;
  hardware_address_length = 6;
  protocol_address_length = 4;
  operation = ArpOperation.request;
  sender_hardware_address = mac;
  sender_protocol_address = local_ip;
  target_hardware_address = record { m0 = 0; m1 = 0; m2 = 0; m3 = 0; m4 = 0; m5 = 0 };
  target_protocol_address = static_ip;
}

-- The two ARP frames, with what may follow them.
abbrev request_frame : IpAddr → MacAddr → List ℕ → List ℕ
request_frame local_ip mac padding = generate_arp_frame (request_params local_ip mac) ++ padding

abbrev reply_frame : IpAddr → MacAddr → MacAddr → List ℕ
reply_frame local_ip mac other =
    generate_arp_frame (reply_params (request_params local_ip mac) other)

either : (b : Bool) → (if b then some true else some true) ≡ some true
either true = refl
either false = refl

asks_for-request :
    (local_ip : IpAddr) (mac other : MacAddr) (padding : List ℕ)
    → asks_for (request_frame local_ip mac padding) other ≡ some true
unfolding asks_for generate_arp_frame Arp.target_hardware_address Arp.target_protocol_address
asks_for-request local_ip mac other padding =
    either (bytes_eq (0 ∷ 0 ∷ 0 ∷ 0 ∷ 0 ∷ 0 ∷ []) (mac_bytes other))

operation-request :
    (local_ip : IpAddr) (mac : MacAddr) (padding : List ℕ)
    → Arp.operation (request_frame local_ip mac padding) ≡ some (ok ArpOperation.request)
unfolding Arp.operation Arp.operation_of generate_arp_frame u16_be_at
operation-request local_ip mac padding = refl

reply_to-request :
    (local_ip : IpAddr) (mac other : MacAddr) (padding : List ℕ)
    → reply_to (request_frame local_ip mac padding) other
      ≡ some (
          generate_ethernet_frame (record {
            dest_mac = mac;
            source_mac = other;
            ether_type = EtherType.arp;
            payload = reply_frame local_ip mac other;
          }))
unfolding reply_to generate_arp_frame Arp.sender_hardware_address
reply_to-request local_ip mac other padding =
    rw ((params_of-generate (request_params local_ip mac) padding (omega arith, omega arith)).1)
      (long_enough _ (length-wire mac other EtherType.arp (reply_frame local_ip mac other)))

module _ (arp_table : HashMap IpAddr MacAddr) where
  handle-request :
      (local_ip : IpAddr) (mac other : MacAddr) (padding : List ℕ) (macs : arp_table.Map)
      → handle_arp_frame arp_table (request_frame local_ip mac padding) other macs
        ≡ some (
          macs,
          generate_ethernet_frame (record {
            dest_mac = mac;
            source_mac = other;
            ether_type = EtherType.arp;
            payload = reply_frame local_ip mac other;
          })
              ∷ [],
        )
  unfolding handle_arp_frame
  handle-request local_ip mac other padding macs = rw (
    operation-request local_ip mac padding,
    asks_for-request local_ip mac other padding,
    reply_to-request local_ip mac other padding,
  )

  handle-reply :
      (local_ip : IpAddr) (mac other : MacAddr) (padding : List ℕ) (macs : arp_table.Map)
      → handle_arp_frame arp_table (reply_frame local_ip mac other ++ padding) mac macs
        ≡ some (arp_table.insert macs static_ip other, [])
  unfolding handle_arp_frame generate_arp_frame Arp.operation Arp.operation_of
      Arp.sender_hardware_address Arp.sender_protocol_address u16_be_at
  handle-reply local_ip mac other padding macs = refl

module _ (arp_table : HashMap IpAddr MacAddr) (table : HashMap TcpKey TcpState) where
  -- A host that asks for the hardware address of another learns it: the other host answers its request
  -- with one packet and changes nothing else, and the packet files the other's address under its IP
  -- address in the table of the host that asked, which sends nothing more. The cards append any
  -- checksums.
  pub request-resolved :
      (around_a around_b : Surroundings) (ip_a : IpAddr) (mac_a mac_b : MacAddr) (c d : Crc)
      (macs_a macs_b : arp_table.Map) (states_a states_b : table.Map)
      → (reply : List ℕ) × (after : arp_table.Map) × (handle_packet arp_table table around_b
            (arp_request_packet static_ip ip_a mac_a ++ crc_bytes c)
            mac_b
            macs_b
            states_b
          ≡ some (record (idle arp_table table around_b macs_b states_b) { sent = reply ∷ [] }))
        × (handle_packet arp_table table around_a (reply ++ crc_bytes d) mac_a macs_a states_a
            ≡ some (idle arp_table table around_a after states_a))
        × (arp_table.get after static_ip ≡ some mac_b)
  unfolding handle_packet arp_request_packet generate_arp_request
  request-resolved around_a around_b ip_a mac_a mac_b c d macs_a macs_b states_a states_b =
      let padding : List ℕ = replicate 18 0 in
      let asked =
        parse_packet-arp broadcast mac_a c (generate_arp_frame (request_params ip_a mac_a))
          (params_of-generate (request_params ip_a mac_a) padding (omega arith, omega arith)).0 in
      let answered =
        parse_packet-arp mac_a mac_b d (reply_frame ip_a mac_a mac_b)
          (params_of-generate (reply_params (request_params ip_a mac_a) mac_b) padding
            (omega arith, omega arith)).0 in
      (
        generate_ethernet_frame (record {
          dest_mac = mac_a;
          source_mac = mac_b;
          ether_type = EtherType.arp;
          payload = reply_frame ip_a mac_a mac_b;
        }),
        arp_table.insert macs_a static_ip mac_b,
        rw (asked, handle-request arp_table ip_a mac_a mac_b padding macs_b),
        rw (answered, handle-reply arp_table ip_a mac_a mac_b padding macs_a),
        arp_table.get-insert _ _ _,
      )
