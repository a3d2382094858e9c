-- ===== src/Usb/Uhci/Link/Laws.antt =====
-- A link pointer is read back from the word that it was written to.
use stream_os.Base.{
  ℕ, ◌%◌, ◌/◌, ◌^◌, ◌-◌, ◌+◌, ◌<◌, ◌≡◌, refl, ap, arith, Option, some, bit_and, Bool, true, false,
  ltb, if◌then◌else◌,
}
use stream_os.Bits.{
  digit, digit_ext, digit-and, digit-lt, digit_small, digit-zero, digit-mod, digit-shr,
}
use stream_os.BitManipulation.{set_bits, shr, not_word}
use stream_os.BitManipulation.Laws.{
  bit_fields, digit-set_bits, digit-not_word, digit-ones, get_bits-arith,
}
use stream_os.Usb.Uhci.Link.{
  LinkPointer, td, qh, no_link, link_word, set_link_pointer, get_link_pointer,
}

low_digit : (ptr i : ℕ) → ptr % 16 ≡ 0 → i < 4 → digit ptr i ≡ 0
low_digit ptr i aligned h =
    ground (arith, digit-mod ptr 4 i, ap (λ t. digit t i) aligned, digit-zero i)

-- The address bits of a word that was written with an aligned pointer.
address_lem :
    (ptr source : ℕ)
    → ptr < 2 ^ 32
    → ptr % 16 ≡ 0
    → bit_and (set_bits 32 4 28 (shr 32 ptr 4) source) (not_word 32 0xf) ≡ ptr
address_lem ptr source h aligned = digit_ext _ _ λ i.
    rw
      (
        digit-and,
        digit-set_bits 32 4 28 (shr 32 ptr 4) source i refl,
        digit-not_word 32 0xf i (omega arith),
        digit-ones 4 i,
        digit-shr ptr 4 (i - 4),
      )
      (ground (
        arith,
        low_digit ptr i aligned,
        digit_small ptr 32 i h,
        digit-lt ptr i,
        ap (digit ptr) (pad i),
      ))
  where
    pad : (i : ℕ) → 4 + (i - 4) ≡ (if ltb i 4 then 4 else i)
    pad i = ground arith

-- What a link points to lies below 2^32 and is aligned to 16 bytes.
abbrev pub IsPointer : LinkPointer → Type 0
IsPointer no_link = Unit {0}
IsPointer (td ptr) = (ptr < 2 ^ 32) × (ptr % 16 ≡ 0)
IsPointer (qh ptr) = (ptr < 2 ^ 32) × (ptr % 16 ≡ 0)

abbrev pub link_of : Bool → ℕ → LinkPointer
link_of false ptr = td ptr
link_of true ptr = qh ptr

-- What a link is written as.
abbrev Written : Option ℕ → LinkPointer → Type 0
unfolding get_link_pointer
Written o p = (word : ℕ) × (o ≡ some word) × (get_link_pointer word ≡ p)

word-Written :
    (is_queue : Bool) (ptr source : ℕ)
    → ptr < 2 ^ 32
    → ptr % 16 ≡ 0
    → Written (link_word is_queue ptr source) (link_of is_queue ptr)
unfolding get_link_pointer
word-Written is_queue ptr source h aligned =
    rw (get_bits-arith 32 0 4 ptr refl, aligned_low)
      (_, refl, simp bit_fields (rw (address_lem ptr _ h aligned) (by_kind is_queue)))
  where
    aligned_low : ptr / 2 ^ 0 % 2 ^ 4 ≡ 0
    aligned_low = omega arith

    by_kind : (b : Bool) → (if b then qh ptr else td ptr) ≡ link_of b ptr
    by_kind true = refl
    by_kind false = refl

-- Whatever the word held, a link is read back from it as it was written.
pub set-get_link :
    (p : LinkPointer) (source : ℕ)
    → IsPointer p
    → (word : ℕ) × (set_link_pointer p source ≡ some word) × (get_link_pointer word ≡ p)
unfolding set_link_pointer get_link_pointer
set-get_link no_link source h = (_, refl, simp bit_fields refl)
set-get_link (td ptr) source h = word-Written false ptr source h.0 h.1
set-get_link (qh ptr) source h = word-Written true ptr source h.0 h.1
