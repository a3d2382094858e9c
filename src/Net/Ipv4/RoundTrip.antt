-- ===== src/Net/Ipv4/RoundTrip.antt =====
-- A generated frame is read back, and its header's checksum verifies.
use stream_os.Base.{
  ℕ, ◌+◌, ◌*◌, ◌/◌, ◌%◌, ◌^◌, ◌<◌, ◌≡◌, refl, arith, List, [], ◌∷◌, ◌++◌, some, ok, length,
  u16_be_at, take, length-append, slice-middle,
}
use stream_os.BitManipulation.{get_bits}
use stream_os.Net.Address.{IpAddr, ip_bytes}
use stream_os.Net.Checksum.{calculate_ipv4_checksum}
use stream_os.Net.Checksum.Laws.{IsBytes, calculate-eq, checksum_verifies}
use stream_os.Net.Ipv4.{
  Ipv4Protocol, protocol_value, protocol_of, generate_ipv4_frame, unsummed_header, new, ihl,
  header_length, total_length, protocol, payload, source_ip,
}

-- The header up to its checksum, and after it.
abbrev before : ℕ → Ipv4Protocol → List ℕ
before n p =
    0x45
    ∷ 0
    ∷ (20 + n % 2 ^ 16) % 2 ^ 16 / 256 % 256
    ∷ (20 + n % 2 ^ 16) % 2 ^ 16 % 256
    ∷ 0
    ∷ 0
    ∷ 0
    ∷ 0
    ∷ 64
    ∷ protocol_value p
    ∷ []

abbrev after : IpAddr → IpAddr → List ℕ
after source dest = ip_bytes source ++ ip_bytes dest

-- The frame with the checksum `c` in place.
abbrev frame : List ℕ → Ipv4Protocol → IpAddr → IpAddr → ℕ → List ℕ
frame body p source dest c =
    before (length body) p ++ (c / 256 % 256 ∷ c % 256 ∷ after source dest) ++ body

-- The parts of a header are bytes.
abbrev pub IsHeader : Ipv4Protocol → IpAddr → IpAddr → Type 0
IsHeader p source dest =
    (protocol_value p < 256) × IsBytes (ip_bytes source) × IsBytes (ip_bytes dest)

bytes_before : (n : ℕ) (p : Ipv4Protocol) → protocol_value p < 256 → IsBytes (before n p)
bytes_before n p h = omega arith

generated :
    (body : List ℕ) (p : Ipv4Protocol) (source dest : IpAddr)
    → IsHeader p source dest
    → (c : ℕ) × (calculate_ipv4_checksum (before (length body) p ++ (0 ∷ 0 ∷ after source dest))
        ≡ some c)
      × (generate_ipv4_frame body p source dest ≡ some (frame body p source dest c))
unfolding generate_ipv4_frame unsummed_header
generated body p source dest h =
    let e =
      calculate-eq (before (length body) p ++ (0 ∷ 0 ∷ after source dest)) refl (omega arith) in
    (_, e, rw e)

-- What a reader finds in the frame `f`, with more bytes behind it.
pub record IsRead (body : List ℕ) (p : Ipv4Protocol) (source : IpAddr) (f padding : List ℕ)
    : Type 0 where
  pub accepted : new (f ++ padding) ≡ some (ok (f ++ padding))
  pub header : header_length (f ++ padding) ≡ some 20
  pub total : total_length (f ++ padding) ≡ some (20 + length body)
  pub kind : protocol (f ++ padding) ≡ some p
  pub from_ip : source_ip (f ++ padding) ≡ some source
  pub contents : payload (f ++ padding) ≡ some body
  pub verifies : calculate_ipv4_checksum (take 20 (f ++ padding)) ≡ some 0

five_words : get_bits 8 0 4 0x45 ≡ 5
unfolding get_bits
five_words = refl

length_field :
    (n : ℕ)
    → 20 + n < 2 ^ 16
    → (20 + n % 2 ^ 16) % 2 ^ 16 / 256 % 256 * 256 + (20 + n % 2 ^ 16) % 2 ^ 16 % 256 ≡ 20 + n
length_field n h = omega arith

frame-IsRead :
    (body padding : List ℕ) (p : Ipv4Protocol) (source dest : IpAddr) (c : ℕ)
    → IsHeader p source dest
    → protocol_of (protocol_value p) ≡ p
    → 20 + length body < 2 ^ 16
    → calculate_ipv4_checksum (before (length body) p ++ (0 ∷ 0 ∷ after source dest)) ≡ some c
    → IsRead body p source (frame body p source dest c) padding
unfolding new header_length ihl total_length protocol payload source_ip u16_be_at
frame-IsRead body padding p source dest c h known fits summed = record {
  accepted =
      rw (five_words, length_field (length body) fits) (ground (arith, length-append body padding));
  header = rw five_words;
  total = rw (length_field (length body) fits);
  kind = rw known;
  from_ip = refl;
  contents =
      rw (five_words, length_field (length body) fits)
        (ground (arith, slice-middle [] body padding 0 (length body)));
  verifies =
      checksum_verifies (before (length body) p) (after source dest) c refl refl
        (bytes_before (length body) p h.0) (omega arith) summed;
}

-- For a body and header parts that fit, generation gives a frame that a reader accepts, with other
-- bytes behind it too: header and total length, protocol, source address and body are read back,
-- and the header's checksum verifies.
pub generate_ipv4_frame-IsRead :
    (body padding : List ℕ) (p : Ipv4Protocol) (source dest : IpAddr)
    → IsHeader p source dest
    → protocol_of (protocol_value p) ≡ p
    → 20 + length body < 2 ^ 16
    → (f : List ℕ) × (generate_ipv4_frame body p source dest ≡ some f)
      × IsRead body p source f padding
generate_ipv4_frame-IsRead body padding p source dest h known fits =
    let (c, summed, made) = generated body p source dest h in
    (
      frame body p source dest c,
      made,
      frame-IsRead body padding p source dest c h known fits summed,
    )
