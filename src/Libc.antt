-- ===== src/Libc.antt =====
-- src/libc.rs: the memory functions that the compiler calls, over memory as a function from addresses.
use stream_os.Base.{
  ℕ, zero, suc, ◌+◌, ◌-◌, ◌%◌, ◌^◌, ◌≡◌, ◌≢◌, ◌<◌, ◌≤◌, ◌⊎◌, inl, inr, refl, sym, subst, ap, ◌∙◌,
  arith, List, [], ◌∷◌, Bool, true, false, ◌==◌, ◌&&◌, ltb, leb, if◌then◌else◌, u8, usize,
  Bool-cases, length, get_elem?, Option, none, some,
}
pub mod Laws

abbrev pub store : (ℕ → ℕ) → ℕ → ℕ → ℕ → ℕ
store mem at v j = if j == at then v else mem j

-- The loops run from index `i` over `n` more bytes.
unfoldable pub memset_from : ℕ → ℕ → (ℕ → ℕ) → ℕ → ℕ → ℕ → ℕ
memset_from s c mem i zero = mem
memset_from s c mem i (suc n) = memset_from s c (store mem (usize (s + i)) c) (i + 1) n

-- The value is an `i32`, of which a byte is taken.
unfoldable pub memset : ℕ → ℕ → ℕ → (ℕ → ℕ) → ℕ → ℕ
unfolding memset_from
memset s c n mem = memset_from s (u8 c) mem 0 n

unfoldable pub memcpy_from : ℕ → ℕ → (ℕ → ℕ) → ℕ → ℕ → ℕ → ℕ
memcpy_from d s mem i zero = mem
memcpy_from d s mem i (suc n) =
    memcpy_from d s (store mem (usize (d + i)) (mem (usize (s + i)))) (i + 1) n

unfoldable pub memcpy : ℕ → ℕ → ℕ → (ℕ → ℕ) → ℕ → ℕ
unfolding memcpy_from
memcpy d s n mem = memcpy_from d s mem 0 n

-- The vector that `memmove` fills, and the copy out of it.
unfoldable pub read_bytes : (ℕ → ℕ) → ℕ → ℕ → List ℕ
read_bytes mem src zero = []
read_bytes mem src (suc n) = mem src ∷ read_bytes mem (usize (src + 1)) n

unfoldable pub write_bytes : ℕ → List ℕ → (ℕ → ℕ) → ℕ → ℕ
write_bytes dest [] mem = mem
write_bytes dest (b ∷ bs) mem = write_bytes (usize (dest + 1)) bs (store mem dest b)

unfoldable pub memmove : ℕ → ℕ → ℕ → (ℕ → ℕ) → ℕ → ℕ
unfolding read_bytes write_bytes
memmove dest src n mem = write_bytes dest (read_bytes mem src n) mem

-- An `i32` in two's complement.
abbrev pub difference : ℕ → ℕ → ℕ
difference a b = (a + (2 ^ 32 - b)) % 2 ^ 32

unfoldable pub memcmp_from : ℕ → ℕ → (ℕ → ℕ) → ℕ → ℕ → ℕ
memcmp_from s1 s2 mem i zero = 0
memcmp_from s1 s2 mem i (suc n) =
    let rest = memcmp_from s1 s2 mem (i + 1) n in
    if mem (usize (s1 + i)) == mem (usize (s2 + i))
    then rest
    else difference (mem (usize (s1 + i))) (mem (usize (s2 + i)))

unfoldable pub memcmp : ℕ → ℕ → ℕ → (ℕ → ℕ) → ℕ
unfolding memcmp_from
memcmp s1 s2 n mem = memcmp_from s1 s2 mem 0 n
