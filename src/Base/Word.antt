-- ===== src/Base/Word.antt =====
-- Machine words as native numbers. The release build is modelled: arithmetic wraps, and a shift
-- takes its count modulo the width.
use Prim.Native.Nat.{ℕ, ◌+◌, ◌-◌, ◌*◌, ◌/◌, ◌%◌, ◌^◌, ◌≤◌, ◌<◌}
use mathlib.Core.List.{List, [], ◌∷◌}
use mathlib.Core.Option.{Option, none, some}
use stream_os.Base.Tests.{◌>>=◌}
use stream_os.Base.Lists.{slice, length, slice-length, slice-none}
use mathlib.Core.Logic.{inr}
use mathlib.Core.Path.{◌≡◌, refl}
use native.Mathlib.Omega.{arith}

abbrev pub u8 : ℕ → ℕ
u8 n = n % 2 ^ 8

abbrev pub u16 : ℕ → ℕ
u16 n = n % 2 ^ 16

abbrev pub u32 : ℕ → ℕ
u32 n = n % 2 ^ 32

abbrev pub u64 : ℕ → ℕ
u64 n = n % 2 ^ 64

-- `usize` and pointers: the target is 32 bits wide.
abbrev pub usize : ℕ → ℕ
usize n = n % 2 ^ 32

abbrev pub sub_u16 : ℕ → ℕ → ℕ
sub_u16 a b = (a + 2 ^ 16 - b) % 2 ^ 16

abbrev pub sub_u32 : ℕ → ℕ → ℕ
sub_u32 a b = (a + 2 ^ 32 - b) % 2 ^ 32

abbrev pub u16_to_be_bytes : ℕ → List ℕ
u16_to_be_bytes v = v / 256 % 256 ∷ v % 256 ∷ []

abbrev pub u32_to_be_bytes : ℕ → List ℕ
u32_to_be_bytes v = v / 16777216 % 256 ∷ v / 65536 % 256 ∷ v / 256 % 256 ∷ v % 256 ∷ []

abbrev pub u16_to_le_bytes : ℕ → List ℕ
u16_to_le_bytes v = v % 256 ∷ v / 256 % 256 ∷ []

-- The conversions of a slice that is known to have the right length; `none` is the failed `expect`.
abbrev pub u16_from_be_bytes : List ℕ → Option ℕ
u16_from_be_bytes (a ∷ b ∷ []) = some (a * 256 + b)
u16_from_be_bytes _ = none

abbrev pub u16_from_le_bytes : List ℕ → Option ℕ
u16_from_le_bytes (a ∷ b ∷ []) = some (b * 256 + a)
u16_from_le_bytes _ = none

abbrev pub u32_from_be_bytes : List ℕ → Option ℕ
u32_from_be_bytes (a ∷ b ∷ c ∷ d ∷ []) = some (a * 16777216 + b * 65536 + c * 256 + d)
u32_from_be_bytes _ = none

abbrev pub u32_from_le_bytes : List ℕ → Option ℕ
u32_from_le_bytes (a ∷ b ∷ c ∷ d ∷ []) = some (d * 16777216 + c * 65536 + b * 256 + a)
u32_from_le_bytes _ = none

-- `uN::from_be_bytes(xs[i..i + N / 8].try_into().expect(..))`.
unfoldable pub u16_be_at : List ℕ → ℕ → Option ℕ
u16_be_at xs i = slice xs i (i + 2) >>= u16_from_be_bytes

unfoldable pub u32_be_at : List ℕ → ℕ → Option ℕ
u32_be_at xs i = slice xs i (i + 4) >>= u32_from_be_bytes

unfoldable pub u16_le_at : List ℕ → ℕ → Option ℕ
u16_le_at xs i = slice xs i (i + 2) >>= u16_from_le_bytes

from_two : (xs : List ℕ) → length xs ≡ 2 → (v : ℕ) × (u16_from_be_bytes xs ≡ some v)
from_two [] h = absurd (omega arith)
from_two (a ∷ []) h = absurd (omega arith)
from_two (a ∷ b ∷ []) h = (_, refl)
from_two (a ∷ b ∷ c ∷ r) h = absurd (omega arith)

from_four : (xs : List ℕ) → length xs ≡ 4 → (v : ℕ) × (u32_from_be_bytes xs ≡ some v)
from_four [] h = absurd (omega arith)
from_four (a ∷ []) h = absurd (omega arith)
from_four (a ∷ b ∷ []) h = absurd (omega arith)
from_four (a ∷ b ∷ c ∷ []) h = absurd (omega arith)
from_four (a ∷ b ∷ c ∷ d ∷ []) h = (_, refl)
from_four (a ∷ b ∷ c ∷ d ∷ e ∷ r) h = absurd (omega arith)

-- A number is read exactly when its bytes are there.
pub u16_be_at-some : (xs : List ℕ) (i : ℕ) → i + 2 ≤ length xs → (v : ℕ) × (u16_be_at xs i ≡ some v)
unfolding u16_be_at
u16_be_at-some xs i h =
    let (ys, e, len) = slice-length xs i (i + 2) (omega arith) h in rw e (from_two ys (omega arith))

pub u32_be_at-some : (xs : List ℕ) (i : ℕ) → i + 4 ≤ length xs → (v : ℕ) × (u32_be_at xs i ≡ some v)
unfolding u32_be_at
u32_be_at-some xs i h =
    let (ys, e, len) = slice-length xs i (i + 4) (omega arith) h in
    rw e (from_four ys (omega arith))

pub u16_be_at-none : (xs : List ℕ) (i : ℕ) → length xs < i + 2 → u16_be_at xs i ≡ none
unfolding u16_be_at
u16_be_at-none xs i h = rw (slice-none xs i (i + 2) (inr h))
