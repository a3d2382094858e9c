-- ===== src/Net/Ipv4.antt =====
-- src/net/mod.rs, `Ipv4Frame`, `Ipv4Protocol` and `generate_ipv4_frame`.
pub mod Laws
pub mod RoundTrip
use stream_os.Base.{
  ℕ, ◌+◌, ◌*◌, ◌%◌, ◌/◌, ◌^◌, Bool, true, false, List, [], ◌∷◌, ◌++◌, Option, none, some, Result,
  ok, err, ltb, ◌==◌, if◌then◌else◌, ◌>>=◌, length, slice, get_elem?, set, u16_be_at,
  u16_to_be_bytes, u8, u16,
}
use stream_os.BitManipulation.{get_bits}
use stream_os.Net.Address.{IpAddr, ip_bytes, ip_from}
use stream_os.Net.Checksum.{calculate_ipv4_checksum}

pub data Ipv4Protocol : Type 0 where
  tcp udp : Ipv4Protocol
  unknown : ℕ → Ipv4Protocol

-- `u8::from(Ipv4Protocol)`.
abbrev pub protocol_value : Ipv4Protocol → ℕ
protocol_value tcp = 0x06
protocol_value udp = 0x11
protocol_value (unknown v) = v

pub data InvalidIpv4Frame : Type 0 where
  invalid : InvalidIpv4Frame

-- An `Ipv4Frame` is its packet.
unfoldable pub ihl : List ℕ → Option ℕ
ihl packet = do first ← get_elem? packet 0; some (get_bits 8 0 4 first)

unfoldable pub header_length : List ℕ → Option ℕ
unfolding ihl
header_length packet = do words ← ihl packet; some (words * 4)

unfoldable pub total_length : List ℕ → Option ℕ
total_length packet = u16_be_at packet 2

abbrev pub protocol_of : ℕ → Ipv4Protocol
protocol_of v = if v == 0x06 then tcp else if v == 0x11 then udp else unknown v

unfoldable pub protocol : List ℕ → Option Ipv4Protocol
protocol packet = do v ← get_elem? packet 9; some (protocol_of v)

-- The length of the header is computed in a `u8`.
unfoldable pub payload : List ℕ → Option (List ℕ)
unfolding ihl total_length
payload packet = do words ← ihl packet; end ← total_length packet; slice packet (u8 (words * 4)) end

unfoldable pub source_ip : List ℕ → Option IpAddr
source_ip packet = slice packet 12 16 >>= ip_from

unfoldable pub new : List ℕ → Option (Result (List ℕ) InvalidIpv4Frame)
unfolding header_length total_length
new [] = some (err invalid)
new (b ∷ rest) = do
  let packet = b ∷ rest
  header ← header_length packet
  if ltb (length packet) header then some (err invalid) else (do
    total ← total_length packet
    if ltb (length packet) total then some (err invalid) else some (ok packet))

-- The header before its checksum is stored.
unfoldable pub unsummed_header : ℕ → Ipv4Protocol → IpAddr → IpAddr → List ℕ
unsummed_header payload_length protocol source_ip dest_ip =
    0x45 ∷ 0x0 ∷ []
    ++ (u16_to_be_bytes (u16 (20 + u16 payload_length))
        ++ (u16_to_be_bytes 0
            ++ (u16_to_be_bytes 0
                ++ (64 ∷ protocol_value protocol ∷ []
                    ++ (u16_to_be_bytes 0 ++ (ip_bytes source_ip ++ ip_bytes dest_ip))))))

unfoldable pub generate_ipv4_frame : List ℕ → Ipv4Protocol → IpAddr → IpAddr → Option (List ℕ)
unfolding unsummed_header
generate_ipv4_frame payload protocol source_ip dest_ip = do
  let ret = unsummed_header (length payload) protocol source_ip dest_ip
  checksum ← calculate_ipv4_checksum ret
  some (set (set ret 10 (checksum / 256 % 256)) 11 (checksum % 256) ++ payload)
