-- ===== src/Net/Arp/RoundTrip.antt =====
-- An ARP frame is read back as it was generated.
use stream_os.Base.{
  ℕ, ◌+◌, ◌*◌, ◌/◌, ◌%◌, ◌^◌, ◌<◌, ◌≡◌, refl, arith, List, ◌++◌, some, ok, u16_be_at,
}
use stream_os.Net.Arp.{
  ArpFrameParams, ArpOperation, request, reply, operation_value, operation_of, new, params_of,
  generate_arp_frame,
}

-- The 16-bit fields are 16 bits wide.
abbrev pub IsWords : ArpFrameParams → Type 0
IsWords params = (params.hardware_type < 2 ^ 16) × (params.protocol_type < 2 ^ 16)

join : (v : ℕ) → v < 2 ^ 16 → v / 256 % 256 * 256 + v % 256 ≡ v
join v h = omega arith

known :
    (op : ArpOperation)
    → operation_of (operation_value op / 256 % 256 * 256 + operation_value op % 256) ≡ ok op
unfolding operation_of
known request = refl
known reply = refl

-- Generating a frame and reading it back gives the same parameters, whatever padding follows it.
pub params_of-generate :
    (params : ArpFrameParams) (padding : List ℕ)
    → IsWords params
    → let frame = generate_arp_frame params ++ padding in
      (new frame ≡ ok frame) × (params_of frame ≡ some (ok params))
unfolding generate_arp_frame new params_of u16_be_at
params_of-generate params padding h = (ground arith, rw (known params.operation) (ground arith))
