-- ===== src/Io/Laws.antt =====
-- When ranges are kept apart, and that an access stays within its range.
use stream_os.Base.{
  ℕ, ◌+◌, ◌-◌, ◌^◌, ◌<◌, ◌≤◌, ◌≡◌, ◌↔◌, ◌⊎◌, inl, inr, refl, ap, arith, List, [], ◌∷◌, ◌++◌, none,
  some, Result, ok, err, true, false, Bool-cases, ◌&&◌, ◌||◌, ltb, leb, u16, sub_u16,
}
use stream_os.Io.{
  PortRange, ranges_overlap, range_already_allocated, IoRange, port_range, request_io_range,
  OffsetOutOfRange, out_of_range, verify_offset, PortAccess, verified, out_port, in_port, write_u8,
  read_u8, write_16, read_16, write_32, read_32,
}

abbrev pub IsIn : ℕ → PortRange → Type 0
IsIn port r = (r.start ≤ port) × (port ≤ r.end)

-- The second range lies within the first one and reaches neither of its ends.
abbrev pub IsInside : PortRange → PortRange → Type 0
IsInside r n = (r.start < n.start) × (n.end < r.end)

-- Two ranges that are not empty have a port in common exactly if the code's test says so, or if the
-- new range lies strictly inside the allocated one, which the test misses.
pub ranges_overlap_iff :
    (r n : PortRange)
    → r.start ≤ r.end
    → n.start ≤ n.end
    → ((port : ℕ) × IsIn port r × IsIn port n) ↔ ((ranges_overlap r n ≡ true) ⊎ IsInside r n)
unfolding ranges_overlap
ranges_overlap_iff r n hr hn = (λ (port, a, b). meets port a b, common)
  where
    meets : (port : ℕ) → IsIn port r → IsIn port n → (ranges_overlap r n ≡ true) ⊎ IsInside r n
    meets port a b = ground arith

    common : (ranges_overlap r n ≡ true) ⊎ IsInside r n → (port : ℕ) × IsIn port r × IsIn port n
    common (inr inside) = (n.start, omega arith, omega arith)
    common (inl hit) = elim (Bool-cases (leb n.start r.start && leb r.start n.end)) [
      | inl first ↦ (r.start, ground arith, ground arith)
      | inr past ↦ (r.end, ground arith, ground arith)
    ]

abbrev pub IsApart : PortRange → PortRange → Type 0
IsApart r n = (r.end < n.start) ⊎ (n.end < r.start)

abbrev pub IsApartFrom : PortRange → List PortRange → Type 0
IsApartFrom r [] = Unit {0}
IsApartFrom r (n ∷ ns) = IsApart r n × IsApartFrom r ns

-- The ranges are not empty, and no two have a port in common.
abbrev pub AreApart : List PortRange → Type 0
AreApart [] = Unit {0}
AreApart (r ∷ rs) = (r.start ≤ r.end) × IsApartFrom r rs × AreApart rs

-- The new range lies strictly inside none of them.
abbrev pub IsInsideNone : List PortRange → PortRange → Type 0
IsInsideNone [] n = Unit {0}
IsInsideNone (r ∷ rs) n = ((leb n.start r.start || leb r.end n.end) ≡ true) × IsInsideNone rs n

IsApartFrom-append :
    (r n : PortRange) (rs : List PortRange)
    → IsApart r n
    → IsApartFrom r rs
    → IsApartFrom r (rs ++ (n ∷ []))
IsApartFrom-append r n [] h k = (h, tt)
IsApartFrom-append r n (s ∷ rs) h k = (k.0, IsApartFrom-append r n rs h k.1)

IsApart-unless :
    (r n : PortRange)
    → r.start ≤ r.end
    → n.start ≤ n.end
    → ranges_overlap r n ≡ false
    → (leb n.start r.start || leb r.end n.end) ≡ true
    → IsApart r n
unfolding ranges_overlap
IsApart-unless r n hr hn free outside = ground arith

AreApart-append :
    (rs : List PortRange) (n : PortRange)
    → AreApart rs
    → n.start ≤ n.end
    → range_already_allocated rs n ≡ false
    → IsInsideNone rs n
    → AreApart (rs ++ (n ∷ []))
unfolding range_already_allocated
AreApart-append [] n h hn free outside = (hn, tt, tt)
AreApart-append (r ∷ rs) n h hn free outside = elim (Bool-cases (ranges_overlap r n)) [
  | inl hit ↦ absurd (ground arith)
  | inr miss ↦ (
    h.0,
    IsApartFrom-append r n rs (IsApart-unless r n h.0 hn miss outside.0) h.1,
    AreApart-append rs n h.2 hn (ground arith) outside.1,
  )
]

-- A request for one port or more, below the end of the ports and strictly inside no allocated range,
-- keeps the allocated ranges apart, whether it is granted or not. If it is granted, its range is the
-- one asked for and is added to the allocated ones; if not, nothing changes.
pub request_io_range-AreApart :
    (rs : List PortRange) (addr len : ℕ)
    → AreApart rs
    → 0 < len
    → addr + len < 2 ^ 16
    → IsInsideNone rs (port_range addr len)
    → AreApart (request_io_range rs addr len).0
      × ((request_io_range rs addr len ≡ (rs, none))
          ⊎ (request_io_range rs addr len ≡ (
            rs ++ (record { start = addr; end = addr + len - 1 } ∷ []),
            some (record { addr = addr; length = len }),
          )))
unfolding request_io_range
request_io_range-AreApart rs addr len h positive below outside =
    elim (Bool-cases (range_already_allocated rs (port_range addr len))) [
      | inl taken ↦ rw taken (h, inl refl)
      | inr free ↦ rw free (
        AreApart-append rs (port_range addr len) h (omega arith) free outside,
        inr (
            ap
              (λ e. (
                rs ++ (record { start = addr; end = e } ∷ []),
                some (record { addr = addr; length = len }),
              ))
              (end_lem addr len positive below)),
      )
    ]
  where
    end_lem : (a n : ℕ) → 0 < n → a + n < 2 ^ 16 → sub_u16 (u16 (a + n)) 1 ≡ a + n - 1
    end_lem a n h k = omega arith

-- Where an access lies: its bytes and its port.
abbrev pub LiesIn : IoRange → PortAccess → Type 0
LiesIn io (out_port n port val) = (io.addr ≤ port) × (port + n ≤ io.addr + io.length)
LiesIn io (in_port n port) = (io.addr ≤ port) × (port + n ≤ io.addr + io.length)

-- What an access gives: one within the range exactly if the bytes fit, and an error otherwise.
abbrev pub IsChecked : IoRange → ℕ → ℕ → Result PortAccess OffsetOutOfRange → Type 0
IsChecked io offset n (ok access) = (offset + n ≤ io.length) × LiesIn io access
IsChecked io offset n (err e) = (io.length < offset + n) × (e ≡ out_of_range offset n io.length)

verified-IsChecked :
    (io : IoRange) (offset n : ℕ) (access : PortAccess)
    → offset + n < 2 ^ 16
    → (offset + n ≤ io.length → LiesIn io access)
    → IsChecked io offset n (verified (verify_offset io offset n) access)
unfolding verify_offset
verified-IsChecked io offset n access h lies =
    elim (Bool-cases (ltb io.length (u16 (offset + n)))) [
      | inl past ↦ rw past (ground arith, refl)
      | inr within ↦ let fits : offset + n ≤ io.length = ground arith in rw within (fits, lies fits)
    ]

-- In a range that ends below the end of the ports, and at an offset for which four more bytes do not
-- overflow 16 bits, each of the six accesses is done exactly if its bytes lie within the range, and
-- then at ports of the range alone; otherwise it gives the error with the offset and the lengths.
pub accesses-IsChecked :
    (io : IoRange) (offset val : ℕ)
    → io.addr + io.length < 2 ^ 16
    → offset + 4 < 2 ^ 16
    → IsChecked io offset 1 (write_u8 io offset val)
      × IsChecked io offset 1 (read_u8 io offset)
      × IsChecked io offset 2 (write_16 io offset val)
      × IsChecked io offset 2 (read_16 io offset)
      × IsChecked io offset 4 (write_32 io offset val)
      × IsChecked io offset 4 (read_32 io offset)
unfolding write_u8 read_u8 write_16 read_16 write_32 read_32
accesses-IsChecked io offset val h k = (
  verified-IsChecked io offset 1 (out_port 1 _ val) (omega arith)
      (λ fits. (omega arith, omega arith)),
  verified-IsChecked io offset 1 (in_port 1 _) (omega arith) (λ fits. (omega arith, omega arith)),
  verified-IsChecked io offset 2 (out_port 2 _ val) (omega arith)
      (λ fits. (omega arith, omega arith)),
  verified-IsChecked io offset 2 (in_port 2 _) (omega arith) (λ fits. (omega arith, omega arith)),
  verified-IsChecked io offset 4 (out_port 4 _ val) (omega arith)
      (λ fits. (omega arith, omega arith)),
  verified-IsChecked io offset 4 (in_port 4 _) (omega arith) (λ fits. (omega arith, omega arith)),
)
