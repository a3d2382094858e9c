-- ===== src/Allocator.antt =====
-- src/allocator.rs: the global allocator. Its memory is a list of free segments, in the order of
-- their `next_segment` pointers, and the headers of the used segments. A segment starts with a header
-- of eight bytes. Both locks are held through each operation.
pub mod Alloc
pub mod Dealloc
use stream_os.Base.{
  ℕ, ◌+◌, ◌-◌, ◌%◌, ◌^◌, List, [], ◌∷◌, ◌++◌, Option, none, some, ◌>>=◌, ◌>>◌, assert,
  if◌then◌else◌, ltb, ◌==◌, usize, sub_u32, Bool, true,
}

-- A `FreeSegment` or a `UsedSegment`: where its header stands, and its size.
pub record Segment : Type 0 where
  pub addr : ℕ
  pub size : ℕ

abbrev pub header_size : ℕ
header_size = 8

abbrev pub get_start : Segment → ℕ
get_start s = usize (s.addr + header_size)

abbrev pub get_end : Segment → ℕ
get_end s = usize (get_start s + s.size)

-- The conversion of a negative distance panics.
unfoldable pub set_end : Segment → ℕ → Option Segment
set_end s end =
    let distance = sub_u32 end (get_start s) in
    if ltb distance (2 ^ 31) then some (record s { size = distance }) else none

pub record Layout : Type 0 where
  pub size : ℕ
  pub align : ℕ

unfoldable pub find_header_for_allocation : Segment → Layout → Option ℕ
find_header_for_allocation segment layout =
    let last = sub_u32 (get_end segment) layout.size in
    let aligned = sub_u32 last (last % layout.align) in
    let ptr = sub_u32 aligned header_size in if ltb ptr (get_start segment) then none else some ptr

-- What is cut off the end of a free segment.
unfoldable pub cut : Segment → ℕ → Option (Segment × Segment)
unfolding set_end
cut segment header_ptr = do
  let used_end = get_end segment
  left ← set_end segment header_ptr
  used ← set_end (record { addr = header_ptr; size = 0 }) used_end
  some (left, used)

-- The loop of `alloc` over the free segments; `none` is the panic at its end.
unfoldable pub alloc_from : List Segment → Layout → Option (List Segment × Segment)
alloc_from [] layout = none
alloc_from (segment ∷ segments) layout =
    let rest = alloc_from segments layout in
    elim (find_header_for_allocation segment layout) [
      | some header_ptr ↦ cut segment header_ptr >>= λ (left, used). some (left ∷ segments, used)
      | none ↦ rest >>= λ (others, used). some (segment ∷ others, used)
    ]

pub record Heap : Type 0 where
  pub free : List Segment
  pub used : List Segment

-- `alloc`, with the address that it returns.
unfoldable pub alloc : Heap → Layout → Option (Heap × ℕ)
unfolding alloc_from
alloc heap layout = do
  let found = alloc_from heap.free layout
  found >>= λ (free, used). some (record { free = free; used = used ∷ heap.used }, get_start used)

unfoldable pub merge_if_adjacent : Segment → List Segment → Option (List Segment)
unfolding set_end
merge_if_adjacent a [] = some (a ∷ [])
merge_if_adjacent a (b ∷ rest) =
    if get_end a == b.addr
    then set_end a (get_end b) >>= (λ merged. some (merged ∷ rest))
    else some (a ∷ b ∷ rest)

-- `rest` is what follows `item`; of the merged list, what follows the new segment's place.
unfoldable pub insert_segment_after : Segment → Segment → List Segment → Option (List Segment)
unfolding merge_if_adjacent
insert_segment_after item new_segment rest =
    merge_if_adjacent new_segment rest >>= λ after. merge_if_adjacent item after

abbrev pub should_insert : Segment → List Segment → Bool
should_insert new_segment [] = true
should_insert new_segment (next ∷ rest) = ltb new_segment.addr next.addr

unfoldable pub insert_segment_into_list : List Segment → Segment → Option (List Segment)
unfolding insert_segment_after
insert_segment_into_list [] new_segment = none
insert_segment_into_list (it ∷ rest) new_segment =
    let later = insert_segment_into_list rest new_segment in
    assert (ltb it.addr new_segment.addr)
    >> (if should_insert new_segment rest
        then insert_segment_after it new_segment rest
        else later >>= λ out. some (it ∷ out))

-- The header at an address, and the other headers.
unfoldable pub take_header : List Segment → ℕ → Option (Segment × List Segment)
take_header [] addr = none
take_header (s ∷ rest) addr =
    let later = take_header rest addr in
    if s.addr == addr then some (s, rest) else later >>= λ (found, others). some (found, s ∷ others)

-- `dealloc`. An address that was not allocated has no header here; the source reads whatever is
-- there.
unfoldable pub dealloc : Heap → ℕ → Option Heap
unfolding take_header insert_segment_into_list
dealloc heap ptr = do
  let header = take_header heap.used (sub_u32 ptr header_size)
  header >>= λ (segment, others). insert_segment_into_list heap.free segment >>= λ free.
      some (record { free = free; used = others })
