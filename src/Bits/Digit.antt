-- ===== src/Bits/Digit.antt =====
-- `digit x i` is binary digit `i` of `x`. Two numbers with the same digits are equal, so a law of
-- the bit operations is a law of digits.
use native.Mathlib.Nat.{
  pow-suc, pow-succ', one-le-pow, sub-zero, suc-sub-suc, div-div-eq-div-mul, zero-add, suc-add,
  div-one, div-add-mod, add-mul-mod_self_left, mod-eq_of_lt, mod-lt,
}
use stream_os.Base.{
  ℕ, zero, suc, ◌+◌, ◌-◌, ◌*◌, ◌/◌, ◌%◌, ◌^◌, ◌≤◌, ◌<◌, min, max, ◌≡◌, refl, ap, ◌∙◌, arith,
  bit_and, bit_or, ltb, if◌then◌else◌,
}
use stream_os.Bits.Step.{bit_or_step, bit_and_step}

unfoldable pub digit : ℕ → ℕ → ℕ
digit x zero = x % 2
digit x (suc i) = digit (x / 2) i

pub digit-lt : (x i : ℕ) → digit x i < 2
unfolding digit
digit-lt x zero = omega arith
digit-lt x (suc i) = digit-lt (x / 2) i

pub digit-zero : (i : ℕ) → digit 0 i ≡ 0
unfolding digit
digit-zero zero = refl
digit-zero (suc i) = digit-zero i

half_and : (a b : ℕ) → bit_and a b / 2 ≡ bit_and (a / 2) (b / 2)
half_and a b = omega (arith, bit_and_step a b)

half_or : (a b : ℕ) → bit_or a b / 2 ≡ bit_or (a / 2) (b / 2)
half_or a b = omega (arith, bit_or_step a b)

pub digit-and : (a b i : ℕ) → digit (bit_and a b) i ≡ min (digit a i) (digit b i)
unfolding digit
digit-and a b zero = omega (arith, bit_and_step a b)
digit-and a b (suc i) = rw (half_and a b) (digit-and (a / 2) (b / 2) i)

pub digit-or : (a b i : ℕ) → digit (bit_or a b) i ≡ max (digit a i) (digit b i)
unfolding digit
digit-or a b zero = omega (arith, bit_or_step a b)
digit-or a b (suc i) = rw (half_or a b) (digit-or (a / 2) (b / 2) i)

half_shl : (x s : ℕ) → x * 2 ^ suc s / 2 ≡ x * 2 ^ s
half_shl x s = omega (arith, ap (λ (t : ℕ). x * t) (pow-suc 2 s))

even_shl : (x s : ℕ) → x * 2 ^ suc s % 2 ≡ 0
even_shl x s = omega (arith, ap (λ (t : ℕ). x * t) (pow-suc 2 s))

mul_one-pow : (x : ℕ) → x * 2 ^ 0 ≡ x
mul_one-pow x = omega arith

mod_one-pow : (x : ℕ) → x % 2 ^ 0 ≡ 0
mod_one-pow x = omega arith

sub-zero_digit : (x i : ℕ) → digit x (i - 0) ≡ digit x i
sub-zero_digit x i = rw sub-zero

pub digit-shl : (x s i : ℕ) → digit (x * 2 ^ s) i ≡ (if ltb i s then 0 else digit x (i - s))
unfolding digit
digit-shl x zero i = rw (mul_one-pow x) (ground (arith, sub-zero_digit x i))
digit-shl x (suc s) zero = ground (arith, even_shl x s)
digit-shl x (suc s) (suc i) = rw (half_shl x s, digit-shl x s i) (ground (arith, suc-sub-suc i s))

half_shr : (x s : ℕ) → x / 2 ^ suc s ≡ x / 2 / 2 ^ s
half_shr x s = rw (pow-succ' 2 s, div-div-eq-div-mul)

pub digit-shr : (x s i : ℕ) → digit (x / 2 ^ s) i ≡ digit x (s + i)
digit-shr x zero i = rw (zero-add, div-one)
digit-shr x (suc s) i = rw (half_shr x s, digit-shr (x / 2) s i, suc-add) (unfold digit in refl)

split_half : (x m : ℕ) → x ≡ x / 2 % m * 2 + x % 2 + 2 * m * (x / 2 / m)
split_half x m = omega (arith, div-add-mod (x / 2) m)

half_mod : (x m : ℕ) → 0 < m → x % (2 * m) / 2 ≡ x / 2 % m
half_mod x m h = omega (arith, low)
  where
    low : x % (2 * m) ≡ x / 2 % m * 2 + x % 2
    low =
        ap (λ t. t % (2 * m)) (split_half x m)
        ∙ add-mul-mod_self_left (x / 2 % m * 2 + x % 2) (2 * m) (x / 2 / m)
        ∙ mod-eq_of_lt (omega (arith, mod-lt (x / 2) h))

pub digit-mod : (x w i : ℕ) → digit (x % 2 ^ w) i ≡ (if ltb i w then digit x i else 0)
unfolding digit
digit-mod x zero i = rw (mod_one-pow x) (ground (arith, digit-zero i))
digit-mod x (suc w) zero = rw (pow-succ' 2 w) (ground arith)
digit-mod x (suc w) (suc i) =
    rw (pow-succ' 2 w, half_mod x (2 ^ w) (one-le-pow w 2 (omega arith)), digit-mod (x / 2) w i)
      (ground arith)

-- A number below `2 ^ w` has no digit from `w` on.
pub digit_small : (x w i : ℕ) → x < 2 ^ w → w ≤ i → digit x i ≡ 0
digit_small x w i h k = ground (arith, digit-mod x w i, ap (λ t. digit t i) (mod-eq_of_lt h))

half_not : (x w : ℕ) → x < 2 ^ suc w → (2 ^ suc w - 1 - x) / 2 ≡ 2 ^ w - 1 - x / 2
half_not x w h = omega (arith, pow-suc 2 w)

pub digit-not : (x w i : ℕ) → x < 2 ^ w → i < w → digit (2 ^ w - 1 - x) i ≡ 1 - digit x i
unfolding digit
digit-not x zero i h k = absurd (omega arith)
digit-not x (suc w) zero h k = omega (arith, pow-suc 2 w)
digit-not x (suc w) (suc i) h k =
    rw (half_not x w h) (digit-not (x / 2) w i (omega (arith, pow-suc 2 w)) (omega arith))

digit_ext_below : (n x y : ℕ) → x + y ≤ n → ((i : ℕ) → digit x i ≡ digit y i) → x ≡ y
unfolding digit
digit_ext_below zero x y h e = omega arith
digit_ext_below (suc n) x y h e =
    omega (arith, e 0, digit_ext_below n (x / 2) (y / 2) (omega arith) (λ i. e (suc i)))

pub digit_ext : (x y : ℕ) → ((i : ℕ) → digit x i ≡ digit y i) → x ≡ y
digit_ext x y h = digit_ext_below (x + y) x y (omega arith) h

-- A number with no digit from `w` on is below `2 ^ w`.
pub lt_of_digits : (x w : ℕ) → ((i : ℕ) → w ≤ i → digit x i ≡ 0) → x < 2 ^ w
lt_of_digits x w h =
    let same : x ≡ x % 2 ^ w =
      digit_ext x (x % 2 ^ w) (λ i. rw (digit-mod x w i) (ground (arith, h i))) in
    omega (arith, mod-lt x {m = 2 ^ w} (one-le-pow w 2 (omega arith)))

-- A number is its low digits beside its high ones.
pub join_fields : (k v : ℕ) → bit_or (v % 2 ^ k) (v / 2 ^ k * 2 ^ k) ≡ v
join_fields k v =
    digit_ext _ _
      λ i. rw (digit-or, digit-mod, digit-shl, digit-shr) (ground (arith, ap (digit v) (back i)))
  where
    back : (i : ℕ) → k + (i - k) ≡ max k i
    back i = omega arith

-- Two adjacent fields put together again.
pub join_adjacent : (k m v : ℕ) → bit_or (v % 2 ^ k) (v / 2 ^ k % 2 ^ m * 2 ^ k) ≡ v % 2 ^ (k + m)
join_adjacent k m v = digit_ext _ _ λ i.
    rw (digit-or, digit-mod, digit-shl, digit-mod, digit-shr, digit-mod v (k + m))
      (ground (arith, ap (digit v) (back i)))
  where
    back : (i : ℕ) → k + (i - k) ≡ max k i
    back i = omega arith
