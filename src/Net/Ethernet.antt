-- ===== src/Net/Ethernet.antt =====
-- src/net/mod.rs, `EthernetFrame` and `generate_ethernet_frame`.
pub mod Laws
pub mod RoundTrip
use stream_os.Base.{
  ℕ, ◌+◌, ◌-◌, Bool, true, false, ◌&&◌, List, [], ◌∷◌, ◌++◌, Option, none, some, Result, ok, err,
  ltb, leb, ◌==◌, if◌then◌else◌, ◌>>=◌, length, slice, replicate, u16_be_at, u32_be_at,
  u16_to_be_bytes,
}
use stream_os.Net.Address.{MacAddr, mac_bytes}

pub data EtherType : Type 0 where
  ipv4 arp : EtherType

abbrev pub ether_type_value : EtherType → ℕ
ether_type_value ipv4 = 0x0800
ether_type_value arp = 0x0806

pub record EthernetFrameParams : Type 0 where
  pub dest_mac : MacAddr
  pub source_mac : MacAddr
  pub ether_type : EtherType
  pub payload : List ℕ

abbrev pub min_length : ℕ
min_length = 60

unfoldable pub generate_ethernet_frame : EthernetFrameParams → List ℕ
generate_ethernet_frame params =
    let ret =
      mac_bytes params.dest_mac
      ++ (mac_bytes params.source_mac
          ++ (u16_to_be_bytes (ether_type_value params.ether_type) ++ params.payload)) in
    if ltb (length ret) min_length then ret ++ replicate (min_length - length ret) 0 else ret

pub data InvalidEthernetFrame : Type 0 where
  invalid : InvalidEthernetFrame

-- An `EthernetFrame` is its packet; the methods are functions on the packet.
unfoldable pub has_dot1q : List ℕ → Option Bool
has_dot1q packet = do tag ← u16_be_at packet 12; some (tag == 0x8100)

unfoldable pub ether_type_offset : List ℕ → Option ℕ
unfolding has_dot1q
ether_type_offset packet = do tagged ← has_dot1q packet; some (if tagged then 16 else 12)

unfoldable pub payload_offset : List ℕ → Option ℕ
unfolding ether_type_offset
payload_offset packet = do offset ← ether_type_offset packet; some (offset + 2)

unfoldable pub new : List ℕ → Option (Result (List ℕ) InvalidEthernetFrame)
unfolding has_dot1q payload_offset
new packet = if ltb (length packet) 14 then some (err invalid) else (do
  tagged ← has_dot1q packet
  offset ← payload_offset packet
  if tagged && ltb (length packet) 18
      then some (err invalid)
      else if leb (length packet - 4) offset
      then some (err invalid)
      else some (ok packet))

unfoldable pub destination_mac : List ℕ → Option (List ℕ)
destination_mac packet = slice packet 0 6

unfoldable pub source_mac : List ℕ → Option (List ℕ)
source_mac packet = slice packet 6 12

unfoldable pub tag : List ℕ → Option (Option (List ℕ))
unfolding has_dot1q
tag packet = do
  tagged ← has_dot1q packet
  if tagged then slice packet 12 16 >>= (λ bytes. some (some bytes)) else some none

unfoldable pub ether_type : List ℕ → Option ℕ
unfolding ether_type_offset
ether_type packet = do start ← ether_type_offset packet; u16_be_at packet start

-- A packet of fewer than four bytes has panicked at the tag before its length is reduced by 4.
unfoldable pub payload : List ℕ → Option (List ℕ)
unfolding ether_type_offset
payload packet = do offset ← ether_type_offset packet; slice packet (offset + 2) (length packet - 4)

-- Below four bytes the source's start wraps and is past the end; here the slice is too short for
-- its conversion. Both panic.
unfoldable pub crc : List ℕ → Option ℕ
crc packet = u32_be_at packet (length packet - 4)
