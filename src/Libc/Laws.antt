-- ===== src/Libc/Laws.antt =====
-- The laws of the memory functions of src/libc.rs.
use stream_os.Base.{
  ℕ, zero, suc, ◌+◌, ◌-◌, ◌^◌, ◌≡◌, ◌<◌, ◌≤◌, ◌⊎◌, inl, inr, refl, subst, ap, arith, Bool, true,
  false, ◌==◌, ◌&&◌, ltb, leb, if◌then◌else◌, u8, usize, Bool-cases,
}
use stream_os.Libc.{
  store, memset_from, memset, memcpy_from, memcpy, read_bytes, write_bytes, memmove, difference,
  memcmp_from, memcmp,
}

-- A number is inside `n` bytes from an address on.
abbrev within : ℕ → ℕ → ℕ → Bool
within at n j = leb at j && ltb j (at + n)

memset_from-within :
    (s c i n : ℕ) (mem : ℕ → ℕ) (j : ℕ)
    → s + i + n ≤ 2 ^ 32
    → memset_from s c mem i n j ≡ (if within (s + i) n j then c else mem j)
unfolding memset_from
memset_from-within s c i zero mem j h = ground arith
memset_from-within s c i (suc n) mem j h =
    rw (in_range s i n h, memset_from-within s c (i + 1) n (store mem (s + i) c) j (omega arith))
      (both s i n j c (mem j))
  where
    in_range : (s i n : ℕ) → s + i + suc n ≤ 2 ^ 32 → usize (s + i) ≡ s + i
    in_range s i n h = omega arith

    both :
        (s i n j c old : ℕ)
        → (if within (s + (i + 1)) n j then c else if j == s + i then c else old)
          ≡ (if within (s + i) (suc n) j then c else old)
    both s i n j c old = ground arith

-- Every byte of the range is set, and no other one.
memset-within :
    (s c n : ℕ) (mem : ℕ → ℕ) (j : ℕ)
    → s + n ≤ 2 ^ 32
    → memset s c n mem j ≡ (if within s n j then u8 c else mem j)
unfolding memset
memset-within s c n mem j h = ground (arith, memset_from-within s (u8 c) 0 n mem j)

memcpy_from-within :
    (d s i n : ℕ) (mem : ℕ → ℕ) (j : ℕ)
    → d + i + n ≤ 2 ^ 32
    → s + i + n ≤ 2 ^ 32
    → (d ≤ s) ⊎ (s + i + n ≤ d)
    → memcpy_from d s mem i n j ≡ (if within (d + i) n j then mem (s + (j - d)) else mem j)
unfolding memcpy_from
memcpy_from-within d s i zero mem j h k apart = ground arith
memcpy_from-within d s i (suc n) mem j h k apart =
    rw
      (
        in_range d i n h,
        in_range s i n k,
        memcpy_from-within d s (i + 1) n (store mem (d + i) (mem (s + i))) j (omega arith)
            (omega arith) (omega arith),
      )
      (elim (Bool-cases (j == d + i)) [
        | inl same ↦ rw (out same, here same, same, ap mem (index same))
        | inr other ↦
            rw (later other, other)
              (elim (Bool-cases (within (d + i) (suc n) j)) [
                | inl inside ↦ rw (inside, fresh apart inside other)
                | inr outside ↦ rw outside
              ])
      ])
  where
    in_range : (s i n : ℕ) → s + i + suc n ≤ 2 ^ 32 → usize (s + i) ≡ s + i
    in_range s i n h = omega arith

    out : (j == d + i) ≡ true → within (d + (i + 1)) n j ≡ false
    out e = ground arith

    here : (j == d + i) ≡ true → within (d + i) (suc n) j ≡ true
    here e = ground arith

    index : (j == d + i) ≡ true → s + (j - d) ≡ s + i
    index e = ground arith

    later : (j == d + i) ≡ false → within (d + (i + 1)) n j ≡ within (d + i) (suc n) j
    later e = ground arith

    fresh :
        (d ≤ s) ⊎ (s + i + suc n ≤ d)
        → within (d + i) (suc n) j ≡ true
        → (j == d + i) ≡ false
        → (s + (j - d) == d + i) ≡ false
    fresh apart w e = ground arith

-- The bytes of the source, as they were, stand at the destination, and no other byte changes, if the
-- two ranges lie apart or the destination is not behind the source.
memcpy-within :
    (d s n : ℕ) (mem : ℕ → ℕ) (j : ℕ)
    → d + n ≤ 2 ^ 32
    → s + n ≤ 2 ^ 32
    → (d ≤ s) ⊎ (s + n ≤ d)
    → memcpy d s n mem j ≡ (if within d n j then mem (s + (j - d)) else mem j)
unfolding memcpy
memcpy-within d s n mem j h k apart = ground (arith, memcpy_from-within d s 0 n mem j)

read_bytes-write :
    (dest src n : ℕ) (old mem : ℕ → ℕ) (j : ℕ)
    → write_bytes dest (read_bytes old src (suc n)) mem j
      ≡ write_bytes
          (usize (dest + 1))
          (read_bytes old (usize (src + 1)) n)
          (store mem dest (old src))
          j
unfolding write_bytes read_bytes
read_bytes-write dest src n old mem j = refl

write_bytes-within :
    (dest src n : ℕ) (old mem : ℕ → ℕ) (j : ℕ)
    → dest + n < 2 ^ 32
    → src + n < 2 ^ 32
    → write_bytes dest (read_bytes old src n) mem j
      ≡ (if within dest n j then old (src + (j - dest)) else mem j)
unfolding write_bytes read_bytes
write_bytes-within dest src zero old mem j h k = ground arith
write_bytes-within dest src (suc n) old mem j h k =
    rw
      (
        read_bytes-write dest src n old mem j,
        in_range dest n h,
        in_range src n k,
        write_bytes-within (dest + 1) (src + 1) n old (store mem dest (old src)) j (omega arith)
            (omega arith),
      )
      (elim (Bool-cases (j == dest)) [
        | inl same ↦ rw (out same, here same, same, ap old (index same))
        | inr other ↦
            rw (later other, other)
              (elim (Bool-cases (within dest (suc n) j)) [
                | inl inside ↦ rw inside (ap old (shift inside other))
                | inr outside ↦ rw outside
              ])
      ])
  where
    in_range : (s n : ℕ) → s + suc n < 2 ^ 32 → usize (s + 1) ≡ s + 1
    in_range s n h = omega arith

    out : (j == dest) ≡ true → within (dest + 1) n j ≡ false
    out e = ground arith

    here : (j == dest) ≡ true → within dest (suc n) j ≡ true
    here e = ground arith

    index : (j == dest) ≡ true → src ≡ src + (j - dest)
    index e = ground arith

    later : (j == dest) ≡ false → within (dest + 1) n j ≡ within dest (suc n) j
    later e = ground arith

    shift :
        within dest (suc n) j ≡ true
        → (j == dest) ≡ false
        → src + 1 + (j - (dest + 1)) ≡ src + (j - dest)
    shift w e = ground arith

-- The same for `memmove`, whatever the two ranges have in common.
memmove-within :
    (dest src n : ℕ) (mem : ℕ → ℕ) (j : ℕ)
    → dest + n < 2 ^ 32
    → src + n < 2 ^ 32
    → memmove dest src n mem j ≡ (if within dest n j then mem (src + (j - dest)) else mem j)
unfolding memmove
memmove-within dest src n mem j h k = write_bytes-within dest src n mem mem j h k

memcmp_from-same :
    (s1 s2 i n : ℕ) (mem : ℕ → ℕ)
    → ((j : ℕ) → mem j < 256)
    → memcmp_from s1 s2 mem i n ≡ 0
    → (j : ℕ) → j < n
    → mem (usize (s1 + (i + j))) ≡ mem (usize (s2 + (i + j)))
unfolding memcmp_from
memcmp_from-same s1 s2 i zero mem byte e j h = absurd (omega arith)
memcmp_from-same s1 s2 i (suc n) mem byte e zero h =
    elim (Bool-cases (mem (usize (s1 + i)) == mem (usize (s2 + i)))) [
      | inl same ↦ ground arith
      | inr other ↦ ground (arith, byte (usize (s1 + i)), byte (usize (s2 + i)))
    ]
memcmp_from-same s1 s2 i (suc n) mem byte e (suc j) h =
    elim (Bool-cases (mem (usize (s1 + i)) == mem (usize (s2 + i)))) [
      | inl same ↦
          rw (assoc j) (memcmp_from-same s1 s2 (i + 1) n mem byte (rest same) j (omega arith))
      | inr other ↦ absurd (ground (arith, byte (usize (s1 + i)), byte (usize (s2 + i))))
    ]
  where
    assoc : (j : ℕ) → i + suc j ≡ i + 1 + j
    assoc j = omega arith

    rest :
        (mem (usize (s1 + i)) == mem (usize (s2 + i))) ≡ true → memcmp_from s1 s2 mem (i + 1) n ≡ 0
    rest same =
        subst
          (λ b.
            (if b
              then memcmp_from s1 s2 mem (i + 1) n
              else difference (mem (usize (s1 + i))) (mem (usize (s2 + i))))
            ≡ 0)
          same e

-- Two ranges of bytes that compare as equal are equal, whatever wraps around.
memcmp-same :
    (s1 s2 n : ℕ) (mem : ℕ → ℕ)
    → ((j : ℕ) → mem j < 256)
    → memcmp s1 s2 n mem ≡ 0
    → (j : ℕ) → j < n
    → mem (usize (s1 + j)) ≡ mem (usize (s2 + j))
unfolding memcmp
memcmp-same s1 s2 n mem byte e j h =
    rw (start s1, start s2) (memcmp_from-same s1 s2 0 n mem byte e j h)
  where
    start : (s : ℕ) → s + j ≡ s + (0 + j)
    start s = omega arith
