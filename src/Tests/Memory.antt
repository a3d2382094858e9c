-- ===== src/Tests/Memory.antt =====
-- Ports, interrupts between processors, and the allocator.
use stream_os.Base.{ℕ, ◌+◌, ◌≡◌, ◌↔◌, ◌⊎◌, inl, inr, refl, arith, [], ◌∷◌, none, some, true}
use stream_os.Io.{
  PortRange, IoRange, ranges_overlap, request_io_range, write_u8, read_u8, write_16, read_16,
  write_32, read_32,
}
use stream_os.Io.Laws.{
  IsIn, IsInside, ranges_overlap_iff, AreApart, request_io_range-AreApart, IsChecked,
  accesses-IsChecked,
}
use stream_os.Multiprocessing.{CommandRegister}
use stream_os.Allocator.{Segment, Layout, alloc_from, insert_segment_into_list}
use stream_os.Allocator.Alloc.{Searched, alloc_from-Searched}
use stream_os.Allocator.Dealloc.{IsListed, insert-IsListed}

abbrev pic1 : PortRange
pic1 = record { start = 0x20; end = 0x21 }

abbrev pic2 : PortRange
pic2 = record { start = 0xa0; end = 0xa1 }

ranges_overlap_iff_example :
    ((port : ℕ) × IsIn port pic1 × IsIn port pic2)
    ↔ ((ranges_overlap pic1 pic2 ≡ true) ⊎ IsInside pic1 pic2)
ranges_overlap_iff_example = ranges_overlap_iff pic1 pic2 (omega arith) (omega arith)

request_io_range-AreApart_example :
    AreApart (request_io_range (pic1 ∷ []) 0xa0 2).0
    × ((request_io_range (pic1 ∷ []) 0xa0 2 ≡ (pic1 ∷ [], none))
        ⊎ (request_io_range (pic1 ∷ []) 0xa0 2
            ≡ (pic1 ∷ pic2 ∷ [], some (record { addr = 0xa0; length = 2 }))))
request_io_range-AreApart_example =
    request_io_range-AreApart (pic1 ∷ []) 0xa0 2 (omega arith, tt, tt) (omega arith) (omega arith)
      (refl, tt)

abbrev card_io : IoRange
card_io = record { addr = 0xc000; length = 0x100 }

accesses-IsChecked_example :
    IsChecked card_io 0xfe 1 (write_u8 card_io 0xfe 7)
    × IsChecked card_io 0xfe 1 (read_u8 card_io 0xfe)
    × IsChecked card_io 0xfe 2 (write_16 card_io 0xfe 7)
    × IsChecked card_io 0xfe 2 (read_16 card_io 0xfe)
    × IsChecked card_io 0xfe 4 (write_32 card_io 0xfe 7)
    × IsChecked card_io 0xfe 4 (read_32 card_io 0xfe)
accesses-IsChecked_example = accesses-IsChecked card_io 0xfe 7 (omega arith) (omega arith)

abbrev old_register : CommandRegister
old_register = record { high = 0xffffffff; low = 0xffffffff }

abbrev low_segment : Segment
low_segment = record { addr = 0x100000; size = 16 }

abbrev high_segment : Segment
high_segment = record { addr = 0x101000; size = 0x1000 }

abbrev page_layout : Layout
page_layout = record { size = 100; align = 64 }

alloc_from-Searched_example :
    Searched page_layout
      (low_segment ∷ high_segment ∷ [])
      (alloc_from (low_segment ∷ high_segment ∷ []) page_layout)
alloc_from-Searched_example =
    alloc_from-Searched page_layout (low_segment ∷ high_segment ∷ []) (omega arith)
      ((omega arith, omega arith), ((omega arith, omega arith), tt))

-- It touches both.
abbrev gap_segment : Segment
gap_segment = record { addr = 0x100018; size = 0xfe0 }

insert-IsListed_example :
    IsListed 0x100000
      (8 + 16 + (8 + 0x1000 + 0) + (8 + 0xfe0))
      (insert_segment_into_list (low_segment ∷ high_segment ∷ []) gap_segment)
insert-IsListed_example =
    insert-IsListed low_segment (high_segment ∷ []) gap_segment
      (omega arith, omega arith, (omega arith, tt, tt)) (inr (omega arith), (inl (omega arith), tt))
      (omega arith) (omega arith)
