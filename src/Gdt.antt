-- ===== src/Gdt.antt =====
-- src/gdt.rs: segment descriptors and access bytes. Loading the table into the processor is inline
-- assembly, and is left out.
pub mod Laws
use stream_os.Base.{ℕ, ◌*◌, ◌/◌, ◌%◌, ◌^◌, bit_or, Bool, true, false, List, [], ◌∷◌, u8, u32}
use stream_os.BitManipulation.{set_bits, set_bit, get_bits, shl, shr}

-- A `GdtSegment` is its 64-bit word. `GdtSegment::new`.
unfoldable pub new : ℕ → ℕ → ℕ → ℕ → ℕ
new base limit access flags =
    let d1 = set_bits 64 0 16 limit 0 in
    let d2 = set_bits 64 48 4 (shr 32 limit 16) d1 in
    let d3 = set_bits 64 16 24 base d2 in
    let d4 = set_bits 64 56 8 (shr 32 base 24) d3 in
    let d5 = set_bits 64 40 8 access d4 in set_bits 64 52 4 flags d5

unfoldable pub base : ℕ → ℕ
base word =
    let lower = get_bits 64 16 24 word in
    let upper = get_bits 64 56 8 word in u32 (bit_or lower (shl 64 upper 24))

unfoldable pub limit : ℕ → ℕ
limit word =
    let lower = get_bits 64 0 16 word in
    let upper = get_bits 64 48 4 word in u32 (bit_or lower (shl 64 upper 16))

unfoldable pub access : ℕ → ℕ
access word = u8 (get_bits 64 40 8 word)

unfoldable pub flags : ℕ → ℕ
flags word = u8 (get_bits 64 52 4 word)

pub record AccessByteParams : Type 0 where
  pub p : Bool
  pub dpl : ℕ
  pub s : Bool
  pub e : Bool
  pub dc : Bool
  pub rw : Bool
  pub a : Bool

unfoldable pub gen_access_byte : AccessByteParams → ℕ
gen_access_byte params =
    let b1 = set_bit 8 7 params.p 0 in
    let b2 = set_bits 8 5 2 params.dpl b1 in
    let b3 = set_bit 8 4 params.s b2 in
    let b4 = set_bit 8 3 params.e b3 in
    let b5 = set_bit 8 2 params.dc b4 in
    let b6 = set_bit 8 1 params.rw b5 in set_bit 8 0 params.a b6

abbrev pub code_params : AccessByteParams
code_params = record { p = true; dpl = 0; s = true; e = true; dc = false; rw = false; a = true }

abbrev pub data_params : AccessByteParams
data_params = record { p = true; dpl = 0; s = true; e = false; dc = false; rw = true; a = true }

unfoldable pub get_gdt_vals : List ℕ
unfolding new gen_access_byte
get_gdt_vals =
    let code = new 0 0xffffffff (gen_access_byte code_params) 0b1100 in
    let data_segment = new 0 0xffffffff (gen_access_byte data_params) 0b1100 in
    0 ∷ code ∷ data_segment ∷ []
