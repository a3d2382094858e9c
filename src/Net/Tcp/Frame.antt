-- ===== src/Net/Tcp/Frame.antt =====
-- src/net/tcp.rs, `TcpFrame` and `generate_tcp_frame`. A frame is its bytes, which nothing validates.
pub mod RoundTrip
use stream_os.Base.{
  ℕ, ◌+◌, ◌*◌, ◌/◌, ◌%◌, ◌^◌, ◌<◌, List, [], ◌∷◌, ◌++◌, Option, none, some, ◌>>=◌, ◌>>◌, assert,
  if◌then◌else◌, ◌==◌, not, length, get_elem?, take, drop, slice_from, u16, u16_be_at, u32_be_at,
  u16_to_be_bytes, u32_to_be_bytes,
}
use stream_os.BitManipulation.{get_bits}
use stream_os.Net.Address.{IpAddr, ip_bytes}
use stream_os.Net.Checksum.{calculate_ipv4_checksum}
use stream_os.Net.Ipv4.{Ipv4Protocol, tcp, protocol_value}

unfoldable pub source_port : List ℕ → Option ℕ
source_port frame = u16_be_at frame 0

unfoldable pub dest_port : List ℕ → Option ℕ
dest_port frame = u16_be_at frame 2

unfoldable pub seq_num : List ℕ → Option ℕ
seq_num frame = u32_be_at frame 4

unfoldable pub ack_num : List ℕ → Option ℕ
ack_num frame = u32_be_at frame 8

unfoldable pub data_offset_bytes : List ℕ → Option ℕ
data_offset_bytes frame = do
  byte ← get_elem? frame 12
  let data_offset_words = get_bits 8 4 4 byte
  assert (not (data_offset_words == 0))
  some (data_offset_words * 4)

unfoldable pub flags : List ℕ → Option ℕ
flags frame = get_elem? frame 13

unfoldable pub window_size : List ℕ → Option ℕ
window_size frame = u16_be_at frame 14

unfoldable pub checksum : List ℕ → Option ℕ
checksum frame = u16_be_at frame 16

unfoldable pub urgent_ptr : List ℕ → Option ℕ
urgent_ptr frame = u16_be_at frame 18

unfoldable pub payload : List ℕ → Option (List ℕ)
unfolding data_offset_bytes
payload frame = data_offset_bytes frame >>= λ offset. slice_from frame offset

pub record TcpFrameParams : Type 0 where
  pub source_address : IpAddr
  pub dest_address : IpAddr
  pub source_port : ℕ
  pub dest_port : ℕ
  pub seq_num : ℕ
  pub ack_num : ℕ
  pub flags : ℕ
  pub window_size : ℕ
  pub urgent_ptr : ℕ
  pub payload : List ℕ

-- The frame up to its checksum, and after it.
abbrev pub head_bytes : TcpFrameParams → List ℕ
head_bytes params =
    u16_to_be_bytes params.source_port
    ++ (u16_to_be_bytes params.dest_port
        ++ (u32_to_be_bytes params.seq_num
            ++ (u32_to_be_bytes params.ack_num
                ++ (20 / 4 * 2 ^ 4 ∷ params.flags ∷ u16_to_be_bytes params.window_size))))

abbrev pub tail_bytes : TcpFrameParams → List ℕ
tail_bytes params = u16_to_be_bytes params.urgent_ptr ++ params.payload

-- What precedes a frame of `n` bytes in the checksum.
abbrev pub pseudo_header : TcpFrameParams → ℕ → List ℕ
pseudo_header params n =
    ip_bytes params.source_address
    ++ (ip_bytes params.dest_address ++ (0 ∷ protocol_value tcp ∷ u16_to_be_bytes (u16 n)))

-- An odd number of bytes is filled up with a zero.
abbrev pub fill_even : List ℕ → List ℕ
fill_even xs = if not (length xs % 2 == 0) then xs ++ (0 ∷ []) else xs

unfoldable pub generate_tcp_frame : TcpFrameParams → Option (List ℕ)
unfolding calculate_ipv4_checksum
generate_tcp_frame params = do
  let ret = head_bytes params ++ (u16_to_be_bytes 0 ++ tail_bytes params)
  sum ← calculate_ipv4_checksum (fill_even (pseudo_header params (length ret) ++ ret))
  some (take 16 ret ++ (u16_to_be_bytes sum ++ drop 18 ret))
