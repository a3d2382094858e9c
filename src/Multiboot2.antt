-- ===== src/Multiboot2.antt =====
-- src/multiboot2.rs: the tags in which the boot loader describes the machine, read from memory byte by
-- byte. A tag is its address.
use stream_os.Base.{
  ℕ, zero, suc, ◌+◌, ◌*◌, ◌/◌, ◌%◌, ◌^◌, List, [], ◌∷◌, Option, none, some, Bool, true, false, ◌==◌,
  ◌&&◌, if◌then◌else◌, ◌>>=◌, u8, u32, usize, sub_u32,
}
use stream_os.Acpi.{u32_at}
pub mod Laws

pub data Tag : Type 0 where
  memory_map : ℕ → Tag
  frame_buffer_info : ℕ → Tag
  rsdp : ℕ → Tag
  image_load : ℕ → Tag

pub record TagIterator : Type 0 where
  pub loc : ℕ
  pub end : ℕ

-- The tags that the iterator gives; it goes on behind others.
unfoldable pub tag_of : ℕ → ℕ → Option Tag
tag_of typ item =
    if typ == 6
    then some (memory_map item)
    else if typ == 8
    then some (frame_buffer_info item)
    else if typ == 14
    then some (rsdp item)
    else if typ == 21
    then some (image_load item)
    else none

-- `(size + 7) & !7`.
abbrev pub padded_size : ℕ → ℕ
padded_size size = u32 (size + 7) / 8 * 8

abbrev pub give :
    TagIterator → Option (TagIterator × Option Tag) → Option Tag → Option (TagIterator × Option Tag)
give after later none = later
give after later (some tag) = some (after, some tag)

-- `TagIterator::next`; `none` if it goes over more tags than given.
unfoldable pub next_tag : ℕ → (ℕ → ℕ) → TagIterator → Option (TagIterator × Option Tag)
next_tag zero mem iter = none
next_tag (suc turns) mem iter =
    let typ = u32_at mem iter.loc in
    let size = padded_size (u32_at mem (usize (iter.loc + 4))) in
    let after = record iter { loc = usize (iter.loc + size) } in
    let later = next_tag turns mem after in
    if iter.loc == iter.end
    then some (iter, none)
    else if typ == 0
    then some (after, none)
    else give after later (tag_of typ iter.loc)

-- `BootInfoHeader::tags`.
unfoldable pub tags : (ℕ → ℕ) → ℕ → TagIterator
tags mem info = record { loc = usize (info + 8); end = usize (info + u32_at mem info) }

-- A loop over the tags up to the first one that a test takes.
abbrev pub stop {ℓ} : {A : Type ℓ} → Option A → Option (Option A) → Option (Option A)
stop none later = later
stop (some a) later = some (some a)

abbrev pub go_on {ℓ} :
    {A : Type ℓ} → (Tag → Option A) → Option Tag → Option (Option A) → Option (Option A)
go_on take none later = some none
go_on take (some tag) later = stop (take tag) later

unfoldable pub find_tag {ℓ} :
    {A : Type ℓ} → ℕ → ℕ → (ℕ → ℕ) → TagIterator → (Tag → Option A) → Option (Option A)
find_tag turns zero mem iter take = none
find_tag turns (suc calls) mem iter take =
    next_tag turns mem iter >>= λ found. go_on take found.1 (find_tag turns calls mem found.0 take)

-- `Multiboot2::new`.
unfoldable pub new : ℕ → ℕ → Option ℕ
new magic info = if magic == 0x36d76289 then some info else none

abbrev pub rsdp_of : Tag → Option ℕ
rsdp_of (rsdp item) = some (usize (item + 8))
rsdp_of other = none

unfoldable pub get_rsdp : ℕ → (ℕ → ℕ) → ℕ → Option (Option ℕ)
get_rsdp turns mem info = find_tag turns turns mem (tags mem info) rsdp_of

pub record MemoryMapEntry : Type 0 where
  pub addr : ℕ
  pub len : ℕ
  pub typ : ℕ
  pub reserved : ℕ

abbrev pub u64_at : (ℕ → ℕ) → ℕ → ℕ
u64_at mem at = u32_at mem (usize (at + 4)) * 2 ^ 32 + u32_at mem at

unfoldable pub entries_from : (ℕ → ℕ) → ℕ → ℕ → List MemoryMapEntry
entries_from mem at zero = []
entries_from mem at (suc n) =
    record {
      addr = u64_at mem at;
      len = u64_at mem (usize (at + 8));
      typ = u32_at mem (usize (at + 16));
      reserved = u32_at mem (usize (at + 20));
    }
    ∷ entries_from mem (usize (at + 24)) n

-- `MemoryMap::entries`.
unfoldable pub entries : (ℕ → ℕ) → ℕ → List MemoryMapEntry
entries mem item =
    entries_from mem (usize (item + 16)) (sub_u32 (u32_at mem (usize (item + 4))) 16 / 24)

abbrev pub memory_map_of : Tag → Option ℕ
memory_map_of (memory_map item) = some item
memory_map_of other = none

abbrev pub expect_entries : (ℕ → ℕ) → Option ℕ → Option (List MemoryMapEntry)
expect_entries mem none = none
expect_entries mem (some item) = some (entries mem item)

-- `Multiboot2::get_mmap_addrs`; `none` is its panic, or a loop that takes more turns than given.
unfoldable pub get_mmap_addrs : ℕ → (ℕ → ℕ) → ℕ → Option (List MemoryMapEntry)
unfolding entries
get_mmap_addrs turns mem info =
    find_tag turns turns mem (tags mem info) memory_map_of >>= expect_entries mem

pub record FrameBufferInfo : Type 0 where
  pub color_size : ℕ
  pub red_offset : ℕ
  pub blue_offset : ℕ
  pub green_offset : ℕ
  pub bytes_per_pix : ℕ
  pub width : ℕ
  pub pitch : ℕ
  pub height : ℕ
  pub addr : ℕ

-- The information in a tag; `none` is a failed assertion.
unfoldable pub framebuffer_info : (ℕ → ℕ) → ℕ → Option FrameBufferInfo
framebuffer_info mem item =
    let byte = λ (offset : ℕ). mem (usize (item + offset)) in
    if (byte 33 == byte 35)
      && (byte 33 == byte 37)
      && (byte 32 % 8 == 0)
      && (byte 34 % 8 == 0)
      && (byte 36 % 8 == 0)
      && (byte 28 % 8 == 0)
    then some (record {
      color_size = byte 33;
      red_offset = byte 32 / 8;
      blue_offset = byte 36 / 8;
      green_offset = byte 34 / 8;
      bytes_per_pix = byte 28 / 8;
      width = u32_at mem (usize (item + 20));
      pitch = u32_at mem (usize (item + 16));
      height = u32_at mem (usize (item + 24));
      addr = u32_at mem (usize (item + 8));
    })
    else none

abbrev pub framebuffer_of : Tag → Option ℕ
framebuffer_of (frame_buffer_info item) = some item
framebuffer_of other = none

abbrev pub info_of : (ℕ → ℕ) → Option ℕ → Option (Option FrameBufferInfo)
info_of mem none = some none
info_of mem (some item) = framebuffer_info mem item >>= λ info. some (some info)

unfoldable pub get_framebuffer_info : ℕ → (ℕ → ℕ) → ℕ → Option (Option FrameBufferInfo)
unfolding framebuffer_info
get_framebuffer_info turns mem info =
    find_tag turns turns mem (tags mem info) framebuffer_of >>= info_of mem
