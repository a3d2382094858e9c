-- ===== src/Allocator/Alloc.antt =====
-- What `alloc` cuts from the free segments.
use native.Mathlib.Nat.{div-add-mod, mul-mod_right, mod-lt}
use stream_os.Base.{
  ℕ, ◌+◌, ◌-◌, ◌*◌, ◌/◌, ◌%◌, ◌^◌, ◌<◌, ◌≤◌, ◌≡◌, refl, ap, ◌∙◌, arith, List, [], ◌∷◌, ◌++◌, Option,
  none, some, ◌>>=◌, if◌then◌else◌, ltb, true, false, lt→ltb, ltb→lt, Bool-cases, inl, inr, sub_u32,
}
use stream_os.Allocator.{
  Segment, get_start, get_end, set_end, Layout, find_header_for_allocation, cut, alloc_from,
}

-- Where a segment ends, without wrap-around.
abbrev pub end_of : Segment → ℕ
end_of s = s.addr + 8 + s.size

-- What a request needs beyond the header of the segment it is cut from.
abbrev pub need : Layout → ℕ
need layout = layout.size + layout.align + 8

-- The segment lies in the lower half of the address space, and not below what is asked for.
abbrev pub IsReachable : Layout → Segment → Type 0
IsReachable layout s = (end_of s < 2 ^ 31) × (need layout ≤ end_of s)

align_down : (n m : ℕ) → (n - n % m) % m ≡ 0
align_down n m =
    ap (λ t. t % m) {y = m * (n / m)} (omega (arith, div-add-mod n m)) ∙ mul-mod_right m (n / m)

-- The place of the header, without wrap-around.
abbrev place : Segment → Layout → ℕ
place s layout = end_of s - layout.size - (end_of s - layout.size) % layout.align - 8

pub plain_start : (s : Segment) → end_of s < 2 ^ 31 → get_start s ≡ s.addr + 8
plain_start s h = omega arith

pub plain_end : (s : Segment) → end_of s < 2 ^ 31 → get_end s ≡ end_of s
plain_end s h = omega arith

pub sub-plain : (a b : ℕ) → b ≤ a → a < 2 ^ 32 → sub_u32 a b ≡ a - b
sub-plain a b h k = omega arith

find-eq :
    (s : Segment) (layout : Layout)
    → 0 < layout.align
    → IsReachable layout s
    → find_header_for_allocation s layout
      ≡ (if ltb (place s layout) (s.addr + 8) then none else some (place s layout))
unfolding find_header_for_allocation
find-eq s layout positive h =
    let below : (end_of s - layout.size) % layout.align < layout.align =
      mod-lt (end_of s - layout.size) positive in
    rw
      (
        plain_end s h.0,
        sub-plain (end_of s) layout.size (omega arith) (omega arith),
        sub-plain (end_of s - layout.size) ((end_of s - layout.size) % layout.align) (omega arith)
            (omega arith),
        sub-plain (end_of s - layout.size - (end_of s - layout.size) % layout.align) 8 (omega arith)
            (omega arith),
      )
      (ap (λ t. if ltb (place s layout) t then none else some (place s layout)) (plain_start s h.0))

find_nothing :
    (s : Segment) (layout : Layout)
    → 0 < layout.align
    → IsReachable layout s
    → ltb (place s layout) (s.addr + 8) ≡ true
    → find_header_for_allocation s layout ≡ none
find_nothing s layout positive h small = rw (find-eq s layout positive h) (rw small)

find_place :
    (s : Segment) (layout : Layout)
    → 0 < layout.align
    → IsReachable layout s
    → ltb (place s layout) (s.addr + 8) ≡ false
    → find_header_for_allocation s layout ≡ some (place s layout)
find_place s layout positive h room = rw (find-eq s layout positive h) (rw room)

-- How a segment is split: the used part stands at its end, holds the request, and starts aligned.
pub record IsCut (layout : Layout) (s left used : Segment) : Type 0 where
  pub kept : left.addr ≡ s.addr
  pub meets : end_of left ≡ used.addr
  pub ends : end_of used ≡ end_of s
  pub holds : layout.size ≤ used.size
  pub aligned : (used.addr + 8) % layout.align ≡ 0

cut-eq :
    (s : Segment) (h : ℕ)
    → s.addr + 8 ≤ h
    → h + 8 ≤ end_of s
    → end_of s < 2 ^ 31
    → cut s h
      ≡ some (
        record { addr = s.addr; size = h - (s.addr + 8) },
        record { addr = h; size = end_of s - (h + 8) },
      )
unfolding cut set_end
cut-eq s h low high below = rw (
  plain_end s below,
  plain_start s below,
  plain_start (record { addr = h; size = 0 }) (omega arith),
  sub-plain h (s.addr + 8) (omega arith) (omega arith),
  sub-plain (end_of s) (h + 8) (omega arith) (omega arith),
  lt→ltb (h - (s.addr + 8)) (2 ^ 31) (omega arith),
  lt→ltb (end_of s - (h + 8)) (2 ^ 31) (omega arith),
)

aligned_place : (n m : ℕ) → 8 ≤ n - n % m → (n - n % m - 8 + 8) % m ≡ 0
aligned_place n m h = ap (λ t. t % m) {y = n - n % m} (omega arith) ∙ align_down n m

place-cut :
    (s : Segment) (layout : Layout)
    → 0 < layout.align
    → IsReachable layout s
    → s.addr + 8 ≤ place s layout
    → (left : Segment) × (used : Segment) × (cut s (place s layout) ≡ some (left, used))
      × IsCut layout s left used
place-cut s layout positive h low = (
  _,
  _,
  cut-eq s (place s layout) low (omega arith) h.0,
  record {
    kept = refl;
    meets = omega arith;
    ends = omega arith;
    holds = omega arith;
    aligned = aligned_place (end_of s - layout.size) layout.align (omega arith);
  },
)

-- No segment has room for what is needed.
abbrev pub AreFull : Layout → List Segment → Type 0
AreFull layout [] = Unit {0}
AreFull layout (s ∷ rest) = (s.size < need layout) × AreFull layout rest

abbrev pub AreReachable : Layout → List Segment → Type 0
AreReachable layout [] = Unit {0}
AreReachable layout (s ∷ rest) = IsReachable layout s × AreReachable layout rest

-- What the search comes to: no segment has room, or one is cut and the others are as they were.
pub data Searched (layout : Layout) (free : List Segment)
    : Option (List Segment × Segment) → Type 0 where
  full : AreFull layout free → Searched layout free none
  split :
      (front back : List Segment) (s left used : Segment)
      → free ≡ front ++ (s ∷ back)
      → IsCut layout s left used
      → Searched layout free (some (front ++ (left ∷ back), used))

later :
    (layout : Layout) (s : Segment) (free : List Segment) (o : Option (List Segment × Segment))
    → s.size < need layout
    → Searched layout free o
    → Searched layout (s ∷ free) (o >>= λ (others, used). some (s ∷ others, used))
later layout s free o h (full all) = full (h, all)
later layout s free o h (split front back t left used e c) =
    split (s ∷ front) back t left used (ap (λ l. s ∷ l) e) c

step :
    (layout : Layout) (s : Segment) (free : List Segment)
    → 0 < layout.align
    → IsReachable layout s
    → Searched layout free (alloc_from free layout)
    → Searched layout (s ∷ free) (alloc_from (s ∷ free) layout)
unfolding alloc_from
step layout s free positive h rest = elim (Bool-cases (ltb (place s layout) (s.addr + 8))) [
  | inl small ↦
      rw (alloc_from, find_nothing s layout positive h small)
        (later layout s free _ (too_small (ltb→lt _ _ small)) rest)
  | inr room ↦
      let (left, used, e, c) = place-cut s layout positive h (ground arith) in
      rw (alloc_from, find_place s layout positive h room, e) (split [] free s left used refl c)
]
  where
    too_small : place s layout < s.addr + 8 → s.size < need layout
    too_small k = omega (arith, mod-lt (end_of s - layout.size) positive)

-- For segments in the lower half of the address space, none of which ends below what is needed, and
-- a positive alignment: the search panics only if no segment has room for the request, one
-- alignment and a header. Otherwise it cuts one segment in two without a gap: the used part is at
-- the end, holds the request and starts aligned behind its header, the free part starts where it
-- did, and the other segments are as they were.
pub alloc_from-Searched :
    (layout : Layout) (free : List Segment)
    → 0 < layout.align
    → AreReachable layout free
    → Searched layout free (alloc_from free layout)
alloc_from-Searched layout [] positive h = unfold alloc_from in full tt
alloc_from-Searched layout (s ∷ free) positive h =
    step layout s free positive h.0 (alloc_from-Searched layout free positive h.1)
