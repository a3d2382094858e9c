-- ===== src/Net/Ethernet/RoundTrip.antt =====
-- A generated frame is read back, once the card has appended the checksum.
use stream_os.Base.{
  ℕ, ◌+◌, ◌-◌, ◌*◌, ◌≤◌, ◌≡◌, refl, ap, ◌∙◌, arith, none, List, [], ◌∷◌, ◌++◌, some, ok, length,
  length-append, length-replicate, replicate, u16_be_at, u32_be_at, u16_to_be_bytes, append_assoc,
  slice-middle, fill-eq, false,
}
use stream_os.Net.Address.{MacAddr, mac_bytes}
use stream_os.Net.Ethernet.{
  EtherType, ipv4, arp, ether_type_value, EthernetFrameParams, generate_ethernet_frame, new,
  has_dot1q, ether_type_offset, payload_offset, destination_mac, source_mac, tag, ether_type,
  payload, crc,
}

-- The payload with the zeros that fill a frame up to its least length.
abbrev pub padded : List ℕ → List ℕ
padded body = body ++ replicate (46 - length body) 0

abbrev pub header : EthernetFrameParams → List ℕ
header params =
    mac_bytes params.dest_mac
    ++ (mac_bytes params.source_mac ++ u16_to_be_bytes (ether_type_value params.ether_type))

pub generated :
    (params : EthernetFrameParams)
    → generate_ethernet_frame params ≡ header params ++ padded params.payload
unfolding generate_ethernet_frame
generated params =
    fill-eq 60 (header params ++ params.payload) 0
    ∙ append_assoc (header params) params.payload _
    ∙ ap (λ k. header params ++ (params.payload ++ replicate k 0)) (omega arith)

pub length-padded : (body : List ℕ) → 46 ≤ length (padded body)
length-padded body = omega (
  arith,
  length-append body (replicate (46 - length body) 0),
  length-replicate {A = ℕ} (46 - length body) 0,
)

module _ (dest source : MacAddr) (kind : EtherType) (body : List ℕ) (c0 c1 c2 c3 : ℕ) where
  abbrev params : EthernetFrameParams
  params = record { dest_mac = dest; source_mac = source; ether_type = kind; payload = body }

  abbrev check : List ℕ
  check = c0 ∷ c1 ∷ c2 ∷ c3 ∷ []

  -- The frame on the wire.
  abbrev frame : List ℕ
  frame = header params ++ (padded body ++ check)

  length-frame : length frame ≡ length (padded body) + 18
  length-frame = omega (arith, length-append (padded body) check)

  crc-frame : crc frame ≡ some (c0 * 16777216 + c1 * 65536 + c2 * 256 + c3)
  unfolding crc u32_be_at
  crc-frame = rw (
      slice-middle (header params ++ padded body) check [] (length frame - 4) (length frame - 4 + 4)
        (omega (arith, length-frame)) (omega arith))

  payload-frame : has_dot1q frame ≡ some false → payload frame ≡ some (padded body)
  unfolding payload ether_type_offset
  payload-frame untagged = rw untagged (
      slice-middle (header params) (padded body) check 14 (length frame - 4) refl
        (omega (arith, length-frame)))

new-frame :
    (dest source : MacAddr) (kind : EtherType) (body : List ℕ) (c0 c1 c2 c3 : ℕ)
    → let f = frame dest source kind body c0 c1 c2 c3 in
      (new f ≡ some (ok f))
      × (has_dot1q f ≡ some false)
      × (ether_type f ≡ some (ether_type_value kind))
unfolding new has_dot1q u16_be_at payload_offset ether_type_offset ether_type
new-frame d s ipv4 body c0 c1 c2 c3 =
    (ground (arith, length-frame d s ipv4 body c0 c1 c2 c3, length-padded body), refl, refl)
new-frame d s arp body c0 c1 c2 c3 =
    (ground (arith, length-frame d s arp body c0 c1 c2 c3, length-padded body), refl, refl)

-- A generated frame, with any four bytes of checksum after it, passes validation, and gives back
-- its addresses, its type, its payload filled with zeros up to 46 bytes, and the checksum.
pub generate_ethernet_frame-new :
    (params : EthernetFrameParams) (c0 c1 c2 c3 : ℕ)
    → let f = generate_ethernet_frame params ++ (c0 ∷ c1 ∷ c2 ∷ c3 ∷ []) in
      (new f ≡ some (ok f))
      × (destination_mac f ≡ some (mac_bytes params.dest_mac))
      × (source_mac f ≡ some (mac_bytes params.source_mac))
      × (tag f ≡ some none)
      × (ether_type f ≡ some (ether_type_value params.ether_type))
      × (payload f ≡ some (padded params.payload))
      × (crc f ≡ some (c0 * 16777216 + c1 * 65536 + c2 * 256 + c3))
unfolding destination_mac source_mac tag
generate_ethernet_frame-new params c0 c1 c2 c3 =
    let (accepted, untagged, kind) =
      new-frame params.dest_mac params.source_mac params.ether_type params.payload c0 c1 c2 c3 in
    rw
      (
        generated params,
        append_assoc (header params) (padded params.payload) (c0 ∷ c1 ∷ c2 ∷ c3 ∷ []),
      )
      (
        accepted,
        refl,
        refl,
        rw untagged,
        kind,
        payload-frame params.dest_mac params.source_mac params.ether_type params.payload c0 c1 c2 c3
            untagged,
        crc-frame params.dest_mac params.source_mac params.ether_type params.payload c0 c1 c2 c3,
      )
