-- ===== src/Usb/Uhci/Link.antt =====
-- src/usb/uhci.rs: link pointers, and the queue head, whose two words hold one each. A pointer is an
-- address of 32 bits.
pub mod Laws
use stream_os.Base.{
  ℕ, bit_and, Option, none, some, ◌>>=◌, ◌>>◌, assert, Bool, true, false, if◌then◌else◌, ◌==◌,
}
use stream_os.BitManipulation.{set_bits, set_bit, get_bits, get_bit, shr, not_word}

pub data LinkPointer : Type 0 where
  td qh : ℕ → LinkPointer
  no_link : LinkPointer

-- The arms for a pointer of either kind; a pointer that is not aligned fails the assertion.
abbrev pub link_word : Bool → ℕ → ℕ → Option ℕ
link_word is_queue ptr_val source =
    let s1 = set_bit 32 0 false source in
    let s2 = set_bit 32 1 is_queue s1 in
    assert (get_bits 32 0 4 ptr_val == 0) >> some (set_bits 32 4 28 (shr 32 ptr_val 4) s2)

-- The new value of the word.
unfoldable pub set_link_pointer : LinkPointer → ℕ → Option ℕ
set_link_pointer no_link source = some (set_bit 32 0 true source)
set_link_pointer (td ptr_val) source = link_word false ptr_val source
set_link_pointer (qh ptr_val) source = link_word true ptr_val source

unfoldable pub get_link_pointer : ℕ → LinkPointer
get_link_pointer source =
    if get_bit 32 0 source
    then no_link
    else (let ptr = bit_and source (not_word 32 0xf) in
        if get_bit 32 1 source then qh ptr else td ptr)

pub record QueueHead : Type 0 where
  pub head_word : ℕ
  pub element_word : ℕ

unfoldable pub set_head_link : LinkPointer → QueueHead → Option QueueHead
unfolding set_link_pointer
set_head_link val queue =
    set_link_pointer val queue.head_word >>= λ word. some (record queue { head_word = word })

unfoldable pub head_link : QueueHead → LinkPointer
unfolding get_link_pointer
head_link queue = get_link_pointer queue.head_word

unfoldable pub set_element_link : LinkPointer → QueueHead → Option QueueHead
unfolding set_link_pointer
set_element_link val queue =
    set_link_pointer val queue.element_word >>= λ word. some (record queue { element_word = word })

unfoldable pub element_link : QueueHead → LinkPointer
unfolding get_link_pointer
element_link queue = get_link_pointer queue.element_word
