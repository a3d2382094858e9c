-- ===== src/Net/Checksum.antt =====
-- src/net/mod.rs, `calculate_ipv4_checksum`: the complement of a ones' complement sum.
pub mod Laws
use stream_os.Base.{
  ℕ, ◌+◌, ◌-◌, ◌*◌, ◌%◌, ◌^◌, List, [], ◌∷◌, Option, none, some, ◌>>=◌, ◌>>◌, assert, leb, ◌==◌,
  if◌then◌else◌, length, u16,
}

-- `overflowing_add`, and one more after an overflow.
unfoldable pub add_carry : ℕ → ℕ → ℕ
add_carry checksum val =
    let sum = u16 (checksum + val) in if leb (2 ^ 16) (checksum + val) then u16 (sum + 1) else sum

-- The loop over `data.chunks(2)`; the last chunk of an odd length does not convert.
unfoldable pub sum_chunks : ℕ → List ℕ → Option ℕ
unfolding add_carry
sum_chunks checksum [] = some checksum
sum_chunks checksum (a ∷ []) = none
sum_chunks checksum (a ∷ b ∷ rest) = sum_chunks (add_carry checksum (a * 256 + b)) rest

unfoldable pub calculate_ipv4_checksum : List ℕ → Option ℕ
unfolding sum_chunks
calculate_ipv4_checksum bytes = do
  assert (length bytes % 2 == 0)
  checksum ← sum_chunks 0 bytes
  some (65535 - checksum)
