-- ===== src/Gdt/Laws.antt =====
-- What a descriptor gives back of the parts that it was made from.
use stream_os.Base.{ℕ, ◌/◌, ◌%◌, ◌*◌, ◌^◌, ◌<◌, ◌≡◌, ap, ◌∙◌, arith, bit_or, u32}
use stream_os.Bits.{join_adjacent}
use stream_os.BitManipulation.{get_bits, get_bit, shl, shr}
use stream_os.BitManipulation.Laws.{bit_fields}
use stream_os.Gdt.{new, base, limit, access, flags, AccessByteParams, gen_access_byte}

joined_base : (b : ℕ) → b < 2 ^ 32 → u32 (bit_or (b % 2 ^ 24) (shl 64 (shr 32 b 24 % 2 ^ 8) 24)) ≡ b
joined_base b h =
    ap (λ t. u32 (bit_or (b % 2 ^ 24) t)) {y = b / 2 ^ 24 % 2 ^ 8 * 2 ^ 24} (omega arith)
    ∙ ap (λ t. u32 t) (join_adjacent 24 8 b)
    ∙ omega arith

joined_limit : (l : ℕ) → u32 (bit_or (l % 2 ^ 16) (shl 64 (shr 32 l 16 % 2 ^ 4) 16)) ≡ l % 2 ^ 20
joined_limit l =
    ap (λ t. u32 (bit_or (l % 2 ^ 16) t)) {y = l / 2 ^ 16 % 2 ^ 4 * 2 ^ 16} (omega arith)
    ∙ ap (λ t. u32 t) (join_adjacent 16 4 l)
    ∙ omega arith

-- Base, limit, access byte and flags are read back from a descriptor as they were written: the
-- base and the access byte whole, the limit modulo 2^20 and the flags modulo 16.
pub new_fields :
    (b l a f : ℕ)
    → b < 2 ^ 32
    → l < 2 ^ 32
    → a < 2 ^ 8
    → (base (new b l a f) ≡ b)
      × (limit (new b l a f) ≡ l % 2 ^ 20)
      × (access (new b l a f) ≡ a)
      × (flags (new b l a f) ≡ f % 2 ^ 4)
unfolding base limit access flags new
new_fields b l a f hb hl ha = (
  simp bit_fields (joined_base b hb),
  simp bit_fields (joined_limit l),
  simp bit_fields (omega arith),
  simp bit_fields (omega arith),
)

-- Every part of an access byte is read back from its place in the byte: the privilege level modulo
-- 4, the other parts as they are.
pub gen_access_byte_fields :
    (params : AccessByteParams)
    → let b = gen_access_byte params in
      (get_bit 8 7 b ≡ params.p)
      × (get_bits 8 5 2 b ≡ params.dpl % 4)
      × (get_bit 8 4 b ≡ params.s)
      × (get_bit 8 3 b ≡ params.e)
      × (get_bit 8 2 b ≡ params.dc)
      × (get_bit 8 1 b ≡ params.rw)
      × (get_bit 8 0 b ≡ params.a)
unfolding gen_access_byte
gen_access_byte_fields params = (
  simp bit_fields,
  simp bit_fields,
  simp bit_fields,
  simp bit_fields,
  simp bit_fields,
  simp bit_fields,
  simp bit_fields,
)
