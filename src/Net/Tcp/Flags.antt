-- ===== src/Net/Tcp/Flags.antt =====
-- src/net/tcp.rs, `TcpFlags` and `generate_tcp_flags`.
use stream_os.Base.{ℕ, ◌<◌, ◌≡◌, refl, Bool}
use stream_os.BitManipulation.{get_bit, set_bit}
use stream_os.BitManipulation.Laws.{bit_fields, set_bit-lt}

pub record TcpFlagsParams : Type 0 where
  pub cwr : Bool
  pub ece : Bool
  pub urg : Bool
  pub ack : Bool
  pub psh : Bool
  pub rst : Bool
  pub syn : Bool
  pub fin : Bool

-- `TcpFlags` is a byte; its methods, in one record.
unfoldable pub flags_of : ℕ → TcpFlagsParams
flags_of byte = record {
  cwr = get_bit 8 7 byte;
  ece = get_bit 8 6 byte;
  urg = get_bit 8 5 byte;
  ack = get_bit 8 4 byte;
  psh = get_bit 8 3 byte;
  rst = get_bit 8 2 byte;
  syn = get_bit 8 1 byte;
  fin = get_bit 8 0 byte;
}

unfoldable pub generate_tcp_flags : TcpFlagsParams → ℕ
generate_tcp_flags params =
    let f7 = set_bit 8 7 params.cwr 0 in
    let f6 = set_bit 8 6 params.ece f7 in
    let f5 = set_bit 8 5 params.urg f6 in
    let f4 = set_bit 8 4 params.ack f5 in
    let f3 = set_bit 8 3 params.psh f4 in
    let f2 = set_bit 8 2 params.rst f3 in
    let f1 = set_bit 8 1 params.syn f2 in set_bit 8 0 params.fin f1

-- Every flag is read back from a generated byte as it was given, and the byte is a byte.
pub flags_of-generate :
    (params : TcpFlagsParams)
    → (flags_of (generate_tcp_flags params) ≡ params) × (generate_tcp_flags params < 256)
unfolding generate_tcp_flags flags_of
flags_of-generate params = (simp bit_fields, set_bit-lt 8 0 params.fin _ refl)
