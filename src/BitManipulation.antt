-- ===== src/BitManipulation.antt =====
-- src/util/bit_manipulation.rs: the bit fields of a register of `w` bits. The macros make one pair
-- of functions for each of the widths 8, 16, 32 and 64.
pub mod Laws
use stream_os.Base.{ℕ, ◌+◌, ◌-◌, ◌*◌, ◌/◌, ◌%◌, ◌^◌, bit_and, bit_or, Bool, ◌==◌, bool_to_nat}

-- `<<`, `>>` and `!` of a word of `w` bits; a count is taken modulo the width.
abbrev pub shl : ℕ → ℕ → ℕ → ℕ
shl w x k = x * 2 ^ (k % w) % 2 ^ w

abbrev pub shr : ℕ → ℕ → ℕ → ℕ
shr w x k = x / 2 ^ (k % w)

abbrev pub not_word : ℕ → ℕ → ℕ
not_word w x = 2 ^ w - 1 - x

-- `SetBits::set_bits`; the result is the new register.
unfoldable pub set_bits : ℕ → ℕ → ℕ → ℕ → ℕ → ℕ
set_bits w shift length val self =
    let mask = shl w (shl w 1 length - 1) shift in
    bit_or (bit_and self (not_word w mask)) (bit_and (shl w val shift) mask)

unfoldable pub set_bit : ℕ → ℕ → Bool → ℕ → ℕ
set_bit w shift enable self = set_bits w shift 1 (bool_to_nat enable) self

-- `GetBits::get_bits`.
unfoldable pub get_bits : ℕ → ℕ → ℕ → ℕ → ℕ
get_bits w shift length self = let mask = shl w 1 length - 1 in bit_and (shr w self shift) mask

unfoldable pub get_bit : ℕ → ℕ → ℕ → Bool
get_bit w shift self = get_bits w shift 1 self == 1
