-- ===== src/Io.antt =====
-- src/io/io_allocator.rs: the ranges of ports that drivers have claimed, and accesses within a range.
pub mod Laws
pub mod Ports
use stream_os.Base.{
  ℕ, ◌+◌, ◌-◌, ◌%◌, ◌^◌, List, [], ◌∷◌, ◌++◌, Option, none, some, Result, ok, err, Bool, true,
  false, ◌&&◌, ◌||◌, if◌then◌else◌, ltb, leb, u16, sub_u16,
}

-- A `RangeInclusive<u16>`.
pub record PortRange : Type 0 where
  pub start : ℕ
  pub end : ℕ

unfoldable pub ranges_overlap : PortRange → PortRange → Bool
ranges_overlap range new_range =
    (leb new_range.start range.start && leb range.start new_range.end)
    || (leb new_range.start range.end && leb range.end new_range.end)

unfoldable pub range_already_allocated : List PortRange → PortRange → Bool
unfolding ranges_overlap
range_already_allocated [] new_range = false
range_already_allocated (range ∷ ranges) new_range =
    if ranges_overlap range new_range then true else range_already_allocated ranges new_range

pub record IoRange : Type 0 where
  pub addr : ℕ
  pub length : ℕ

abbrev pub port_range : ℕ → ℕ → PortRange
port_range addr length = record { start = addr; end = sub_u16 (u16 (addr + length)) 1 }

-- `IoAllocator` is its allocated ranges.
unfoldable pub request_io_range : List PortRange → ℕ → ℕ → List PortRange × Option IoRange
unfolding range_already_allocated
request_io_range allocated addr length =
    if range_already_allocated allocated (port_range addr length) then (allocated, none) else (
      allocated ++ (port_range addr length ∷ []),
      some (record { addr = addr; length = length }),
    )

pub data OffsetOutOfRange : Type 0 where
  out_of_range : (value num_bytes length : ℕ) → OffsetOutOfRange

unfoldable pub verify_offset : IoRange → ℕ → ℕ → Result (Unit {0}) OffsetOutOfRange
verify_offset range offset num_bytes =
    if ltb range.length (u16 (offset + num_bytes))
    then err (out_of_range offset num_bytes range.length)
    else ok tt

-- The instruction that an access comes to: the bytes that it moves, and its port.
pub data PortAccess : Type 0 where
  out_port : (num_bytes port val : ℕ) → PortAccess
  in_port : (num_bytes port : ℕ) → PortAccess

abbrev pub verified :
    Result (Unit {0}) OffsetOutOfRange → PortAccess → Result PortAccess OffsetOutOfRange
verified (ok u) access = ok access
verified (err e) access = err e

abbrev pub port_of : IoRange → ℕ → ℕ
port_of range offset = u16 (range.addr + offset)

unfoldable pub write_u8 : IoRange → ℕ → ℕ → Result PortAccess OffsetOutOfRange
unfolding verify_offset
write_u8 range offset val =
    verified (verify_offset range offset 1) (out_port 1 (port_of range offset) val)

unfoldable pub read_u8 : IoRange → ℕ → Result PortAccess OffsetOutOfRange
unfolding verify_offset
read_u8 range offset = verified (verify_offset range offset 1) (in_port 1 (port_of range offset))

unfoldable pub write_16 : IoRange → ℕ → ℕ → Result PortAccess OffsetOutOfRange
unfolding verify_offset
write_16 range offset val =
    verified (verify_offset range offset 2) (out_port 2 (port_of range offset) val)

unfoldable pub read_16 : IoRange → ℕ → Result PortAccess OffsetOutOfRange
unfolding verify_offset
read_16 range offset = verified (verify_offset range offset 2) (in_port 2 (port_of range offset))

unfoldable pub write_32 : IoRange → ℕ → ℕ → Result PortAccess OffsetOutOfRange
unfolding verify_offset
write_32 range offset val =
    verified (verify_offset range offset 4) (out_port 4 (port_of range offset) val)

unfoldable pub read_32 : IoRange → ℕ → Result PortAccess OffsetOutOfRange
unfolding verify_offset
read_32 range offset = verified (verify_offset range offset 4) (in_port 4 (port_of range offset))
