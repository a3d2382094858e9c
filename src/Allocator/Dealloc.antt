-- ===== src/Allocator/Dealloc.antt =====
-- What `dealloc` does to the free segments.
use stream_os.Base.{
  ℕ, ◌+◌, ◌-◌, ◌^◌, ◌<◌, ◌≤◌, ◌≡◌, refl, subst, arith, List, [], ◌∷◌, Option, some, ◌>>=◌, ltb,
  lt→ltb, ◌==◌, ==_iff, Bool-cases, inl, inr, ◌⊎◌,
}
use stream_os.Allocator.{
  Segment, set_end, merge_if_adjacent, insert_segment_after, insert_segment_into_list,
}
use stream_os.Allocator.Alloc.{end_of, plain_end, plain_start, sub-plain}

-- A gap before what follows.
abbrev pub IsBefore : Segment → List Segment → Type 0
IsBefore a [] = Unit {0}
IsBefore a (b ∷ rest) = end_of a < b.addr

-- The free segments lie in the lower half of the address space, in the order of their addresses,
-- and no two overlap or touch.
abbrev pub IsFree : List Segment → Type 0
IsFree [] = Unit {0}
IsFree (a ∷ rest) = (end_of a < 2 ^ 31) × IsBefore a rest × IsFree rest

-- A segment that overlaps none of them.
abbrev pub IsClear : Segment → List Segment → Type 0
IsClear s [] = Unit {0}
IsClear s (t ∷ rest) = ((end_of s ≤ t.addr) ⊎ (end_of t ≤ s.addr)) × IsClear s rest

-- The bytes of the segments, headers included.
abbrev pub total : List Segment → ℕ
total [] = 0
total (s ∷ rest) = 8 + s.size + total rest

-- The list `o` is sorted, starts at the address `addr`, and has `bytes` bytes.
abbrev pub IsListed : ℕ → ℕ → Option (List Segment) → Type 0
IsListed addr bytes o =
    (first : Segment) × (others : List Segment) × (o ≡ some (first ∷ others))
    × (first.addr ≡ addr)
    × IsFree (first ∷ others)
    × (total (first ∷ others) ≡ bytes)

-- The new segment comes before the rest, or touches its first one.
abbrev Reaches : Segment → List Segment → Type 0
Reaches a [] = Unit {0}
Reaches a (b ∷ rest) = end_of a ≤ b.addr

set_end-eq :
    (a : Segment) (end : ℕ)
    → a.addr + 8 ≤ end
    → end < 2 ^ 31
    → set_end a end ≡ some (record { addr = a.addr; size = end - (a.addr + 8) })
unfolding set_end
set_end-eq a end h k = rw (
  plain_start (record { addr = a.addr; size = 0 }) (omega arith),
  sub-plain end (a.addr + 8) (omega arith) (omega arith),
  lt→ltb (end - (a.addr + 8)) (2 ^ 31) (omega arith),
)

IsBefore-end :
    (a b : Segment) (rest : List Segment) → end_of b ≡ end_of a → IsBefore a rest → IsBefore b rest
IsBefore-end a b [] e h = tt
IsBefore-end a b (c ∷ rest) e h = omega arith

merge-IsListed :
    (a : Segment) (rest : List Segment)
    → end_of a < 2 ^ 31
    → Reaches a rest
    → IsFree rest
    → IsListed a.addr (8 + a.size + total rest) (merge_if_adjacent a rest)
unfolding merge_if_adjacent
merge-IsListed a [] below reaches sorted = (a, [], refl, refl, (below, tt, tt), refl)
merge-IsListed a (b ∷ rest) below reaches sorted = elim (Bool-cases (end_of a == b.addr)) [
  | inl touch ↦
      let same : end_of a ≡ b.addr = (==_iff _ _).0 touch in
      rw
        (
          plain_end a below,
          plain_end b sorted.0,
          touch,
          set_end-eq a (end_of b) (omega arith) sorted.0,
        )
        (
          record { addr = a.addr; size = end_of b - (a.addr + 8) },
          rest,
          refl,
          refl,
          (omega arith, IsBefore-end b _ rest (omega arith) sorted.1, sorted.2),
          omega arith,
        )
  | inr apart ↦
      rw (plain_end a below, apart) (a, b ∷ rest, refl, refl, (below, ground arith, sorted), refl)
]

IsBefore→Reaches : (a : Segment) (rest : List Segment) → IsBefore a rest → Reaches a rest
IsBefore→Reaches a [] h = tt
IsBefore→Reaches a (b ∷ rest) h = omega arith

-- Merging with the list that `o` gives, if it starts behind `a`.
then_merge :
    (a : Segment) (addr bytes : ℕ) (o : Option (List Segment))
    → end_of a < 2 ^ 31
    → end_of a ≤ addr
    → IsListed addr bytes o
    → IsListed a.addr (8 + a.size + bytes) (o >>= λ rest. merge_if_adjacent a rest)
then_merge a addr bytes o below behind (first, others, e, start, sorted, sum) = rw e (
    subst (λ n. IsListed a.addr (8 + a.size + n) (merge_if_adjacent a (first ∷ others))) sum
      (merge-IsListed a (first ∷ others) below (omega arith) sorted))

after-IsListed :
    (it new : Segment) (rest : List Segment)
    → end_of it < 2 ^ 31
    → end_of new < 2 ^ 31
    → end_of it ≤ new.addr
    → Reaches new rest
    → IsFree rest
    → IsListed it.addr
        (8 + it.size + (8 + new.size + total rest))
        (insert_segment_after it new rest)
unfolding insert_segment_after
after-IsListed it new rest low high gap reaches sorted =
    then_merge it new.addr (8 + new.size + total rest) (merge_if_adjacent new rest) low gap
      (merge-IsListed new rest high reaches sorted)

-- Keeping a segment in front of the list that `o` gives.
then_keep :
    (it : Segment) (addr bytes : ℕ) (o : Option (List Segment))
    → end_of it < 2 ^ 31
    → end_of it < addr
    → IsListed addr bytes o
    → IsListed it.addr (8 + it.size + bytes) (o >>= λ out. some (it ∷ out))
then_keep it addr bytes o below gap (first, others, e, start, sorted, sum) =
    rw e (it, first ∷ others, refl, refl, (below, omega arith, sorted), omega arith)

-- A segment in the lower half of the address space that overlaps no free segment and lies behind the
-- first one is inserted without a panic: the list stays sorted and without segments that touch, it
-- starts where it did, and it has the bytes of the inserted segment and its header more.
pub insert-IsListed :
    (it : Segment) (rest : List Segment) (new : Segment)
    → IsFree (it ∷ rest)
    → IsClear new (it ∷ rest)
    → it.addr < new.addr
    → end_of new < 2 ^ 31
    → IsListed it.addr
        (total (it ∷ rest) + (8 + new.size))
        (insert_segment_into_list (it ∷ rest) new)
unfolding insert_segment_into_list
insert-IsListed it [] new sorted clear after high = rw (lt→ltb it.addr new.addr after) (
    subst (λ n. IsListed it.addr n (insert_segment_after it new [])) (omega arith)
      (after-IsListed it new [] sorted.0 high (ground arith) tt tt))
insert-IsListed it (next ∷ rest) new sorted clear after high =
    elim (Bool-cases (ltb new.addr next.addr)) [
      | inl here ↦
          rw (lt→ltb it.addr new.addr after, here)
            (subst (λ n. IsListed it.addr n (insert_segment_after it new (next ∷ rest)))
              (omega arith)
              (after-IsListed it new (next ∷ rest) sorted.0 high (ground arith) (ground arith)
                sorted.2))
      | inr later ↦
          rw (lt→ltb it.addr new.addr after, later)
            (subst
              (λ n.
                IsListed it.addr n
                  (insert_segment_into_list (next ∷ rest) new >>= λ out. some (it ∷ out)))
              (omega arith)
              (then_keep it next.addr (total (next ∷ rest) + (8 + new.size)) _ sorted.0 sorted.1
                (insert-IsListed next rest new sorted.2 clear.1 (ground arith) high)))
    ]
