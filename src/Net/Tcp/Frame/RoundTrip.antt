-- ===== src/Net/Tcp/Frame/RoundTrip.antt =====
-- A generated TCP frame is read back, and its checksum verifies.
use stream_os.Base.{
  ℕ, ◌+◌, ◌*◌, ◌/◌, ◌%◌, ◌^◌, ◌<◌, ◌≡◌, Bool-cases, inl, inr, refl, sym, ap, ◌∙◌, arith, List, [],
  ◌∷◌, ◌++◌, append_assoc, some, length, length-append, ◌==◌, u16_be_at, u32_be_at, u16_to_be_bytes,
}
use stream_os.BitManipulation.{get_bits}
use stream_os.Net.Address.{ip_bytes}
use stream_os.Net.Checksum.{calculate_ipv4_checksum}
use stream_os.Net.Checksum.Laws.{
  IsBytes, IsBytes-append, calculate-eq, calculate-total, checksum_verifies,
}
use stream_os.Net.Tcp.Frame.{
  TcpFrameParams, head_bytes, tail_bytes, pseudo_header, fill_even, generate_tcp_frame, source_port,
  dest_port, seq_num, ack_num, data_offset_bytes, flags, window_size, urgent_ptr, payload,
}

-- Every field fits its place in the frame.
pub record IsFrameParams (params : TcpFrameParams) : Type 0 where
  pub source_fits : params.source_port < 2 ^ 16
  pub dest_fits : params.dest_port < 2 ^ 16
  pub seq_fits : params.seq_num < 2 ^ 32
  pub ack_fits : params.ack_num < 2 ^ 32
  pub flags_fits : params.flags < 256
  pub window_fits : params.window_size < 2 ^ 16
  pub urgent_fits : params.urgent_ptr < 2 ^ 16
  pub source_ip : IsBytes (ip_bytes params.source_address)
  pub dest_ip : IsBytes (ip_bytes params.dest_address)
  pub body : IsBytes params.payload

-- The frame with the checksum `c` in place.
abbrev pub frame : TcpFrameParams → ℕ → List ℕ
frame params c = head_bytes params ++ (u16_to_be_bytes c ++ tail_bytes params)

-- What the checksum is taken over, by the sender and by the receiver.
abbrev pub checked : TcpFrameParams → List ℕ → List ℕ
checked params f = fill_even (pseudo_header params (length f) ++ f)

fill_even-append : (xs ys : List ℕ) → length xs % 2 ≡ 0 → fill_even (xs ++ ys) ≡ xs ++ fill_even ys
fill_even-append xs ys even = rw parity (elim (Bool-cases (length ys % 2 == 0)) [
  | inl full ↦ rw full
  | inr odd ↦ rw (odd, append_assoc)
])
  where
    parity : (length (xs ++ ys) % 2 == 0) ≡ (length ys % 2 == 0)
    parity = ground (arith, length-append xs ys)

fill_even-length : (xs : List ℕ) → length (fill_even xs) % 2 ≡ 0
fill_even-length xs = ground (arith, length-append xs (0 ∷ []))

fill_even-IsBytes : (xs : List ℕ) → IsBytes xs → IsBytes (fill_even xs)
fill_even-IsBytes xs h = ground (arith, IsBytes-append xs (0 ∷ []))

join16 : (v : ℕ) → v < 2 ^ 16 → v / 256 % 256 * 256 + v % 256 ≡ v
join16 v h = omega arith

join32 :
    (v : ℕ)
    → v < 2 ^ 32
    → v / 16777216 % 256 * 16777216 + v / 65536 % 256 * 65536 + v / 256 % 256 * 256 + v % 256 ≡ v
join32 v h = omega arith

module _ (params : TcpFrameParams) (h : IsFrameParams params) where
  checked-eq :
      (c : ℕ)
      → checked params (frame params c)
        ≡ (pseudo_header params (length (frame params 0)) ++ head_bytes params)
          ++ (c / 256 % 256 ∷ c % 256 ∷ fill_even (tail_bytes params))
  checked-eq c =
      fill_even-append
        ((pseudo_header params (length (frame params 0)) ++ head_bytes params)
          ++ (c / 256 % 256 ∷ c % 256 ∷ []))
        (tail_bytes params) refl

  front-IsBytes : IsBytes (pseudo_header params (length (frame params 0)) ++ head_bytes params)
  front-IsBytes = omega (arith, h.flags_fits, h.source_ip, h.dest_ip)

  tail-IsBytes : IsBytes (fill_even (tail_bytes params))
  tail-IsBytes = fill_even-IsBytes (tail_bytes params) (omega arith, (omega arith, h.body))

  generated :
      (c : ℕ) × (calculate_ipv4_checksum (checked params (frame params 0)) ≡ some c)
      × (generate_tcp_frame params ≡ some (frame params c))
  unfolding generate_tcp_frame
  generated =
      let e =
        calculate-eq (checked params (frame params 0))
          (fill_even-length (pseudo_header params (length (frame params 0)) ++ frame params 0))
          (fill_even-IsBytes (pseudo_header params (length (frame params 0)) ++ frame params 0) (
            IsBytes-append (pseudo_header params (length (frame params 0)) ++ head_bytes params)
              (0 ∷ 0 ∷ tail_bytes params) front-IsBytes
              (omega arith, (omega arith, (omega arith, (omega arith, h.body)))))) in
      (_, e, rw e)

  verifies :
      (c : ℕ)
      → calculate_ipv4_checksum (checked params (frame params 0)) ≡ some c
      → calculate_ipv4_checksum (checked params (frame params c)) ≡ some 0
  verifies c e =
      ap calculate_ipv4_checksum (checked-eq c)
      ∙ checksum_verifies (pseudo_header params (length (frame params 0)) ++ head_bytes params)
          (fill_even (tail_bytes params)) c refl (fill_even-length (tail_bytes params))
          front-IsBytes tail-IsBytes (ap calculate_ipv4_checksum (sym (checked-eq 0)) ∙ e)

-- What a reader finds in the frame `f`.
pub record IsRead (params : TcpFrameParams) (f : List ℕ) : Type 0 where
  pub from_port : source_port f ≡ some params.source_port
  pub to_port : dest_port f ≡ some params.dest_port
  pub seq : seq_num f ≡ some params.seq_num
  pub ack : ack_num f ≡ some params.ack_num
  pub offset : data_offset_bytes f ≡ some 20
  pub flag_byte : flags f ≡ some params.flags
  pub window : window_size f ≡ some params.window_size
  pub urgent : urgent_ptr f ≡ some params.urgent_ptr
  pub contents : payload f ≡ some params.payload
  pub verifies : calculate_ipv4_checksum (checked params f) ≡ some 0

five_words : get_bits 8 4 4 80 ≡ 5
unfolding get_bits
five_words = refl

pub frame-IsRead :
    (params : TcpFrameParams) (c : ℕ)
    → IsFrameParams params
    → calculate_ipv4_checksum (checked params (frame params 0)) ≡ some c
    → IsRead params (frame params c)
unfolding source_port dest_port seq_num ack_num data_offset_bytes flags window_size urgent_ptr
    payload u16_be_at u32_be_at
frame-IsRead params c h summed = record {
  from_port = ap some (join16 params.source_port h.source_fits);
  to_port = ap some (join16 params.dest_port h.dest_fits);
  seq = ap some (join32 params.seq_num h.seq_fits);
  ack = ap some (join32 params.ack_num h.ack_fits);
  offset = rw five_words;
  flag_byte = refl;
  window = ap some (join16 params.window_size h.window_fits);
  urgent = ap some (join16 params.urgent_ptr h.urgent_fits);
  contents = rw five_words;
  verifies = verifies params h c summed;
}

-- For parameters that fit their fields, generation gives a frame, and every accessor reads back what
-- it was given, the payload included; the sum over the pseudo header and the frame that a receiver
-- takes is zero.
pub generate_tcp_frame-IsRead :
    (params : TcpFrameParams)
    → IsFrameParams params
    → (f : List ℕ) × (generate_tcp_frame params ≡ some f) × IsRead params f
generate_tcp_frame-IsRead params h =
    let (c, summed, made) = generated params h in
    (frame params c, made, frame-IsRead params c h summed)

generated-some :
    (params : TcpFrameParams) → (c : ℕ) × (generate_tcp_frame params ≡ some (frame params c))
unfolding generate_tcp_frame
generated-some params =
    let (c, e) =
      calculate-total (checked params (frame params 0))
        (fill_even-length (pseudo_header params (length (frame params 0)) ++ frame params 0)) in
    (c, rw e)

-- Generation never panics, whatever the fields hold.
pub generate_tcp_frame-total :
    (params : TcpFrameParams) → (f : List ℕ) × (generate_tcp_frame params ≡ some f)
generate_tcp_frame-total params = let (c, e) = generated-some params in (frame params c, e)

pub generate_tcp_frame-length :
    (params : TcpFrameParams) (f : List ℕ)
    → generate_tcp_frame params ≡ some f
    → length f ≡ 20 + length params.payload
generate_tcp_frame-length params f made =
    let (c, e) = generated-some params in
    let same : f ≡ frame params c = cc in rw same (omega arith)
