-- ===== src/Net/Udp.antt =====
-- src/net/mod.rs, `UdpFrame` and `generate_udp_frame`.
pub mod Laws
use stream_os.Base.{
  ℕ, ◌+◌, ◌<◌, List, [], ◌∷◌, ◌++◌, Option, none, some, Result, ok, err, ltb, if◌then◌else◌, ◌>>=◌,
  length, slice, u16_be_at, u16_to_be_bytes, u16,
}

pub data InvalidUdpFrame : Type 0 where
  invalid : ℕ → ℕ → InvalidUdpFrame

-- A `UdpFrame` is its packet. `UdpFrame::length`.
unfoldable pub udp_length : List ℕ → Option ℕ
udp_length packet = u16_be_at packet 4

-- The error holds the length field, so it is read on that path too.
unfoldable pub new : List ℕ → Option (Result (List ℕ) InvalidUdpFrame)
unfolding udp_length
new packet = do
  let refuse = do len ← udp_length packet; some (err (invalid (length packet) len))
  if ltb (length packet) 8 then refuse else (do
    len ← udp_length packet
    if ltb (length packet) len then refuse else some (ok packet))

-- `UdpFrame::data`.
unfoldable pub udp_data : List ℕ → Option (List ℕ)
unfolding udp_length
udp_data packet = do len ← udp_length packet; slice packet 8 len

unfoldable pub generate_udp_frame : ℕ → List ℕ → List ℕ
generate_udp_frame dest_port payload =
    let len = u16 (8 + u16 (length payload)) in
    u16_to_be_bytes 0
    ++ (u16_to_be_bytes dest_port ++ (u16_to_be_bytes len ++ (u16_to_be_bytes 0 ++ payload)))
