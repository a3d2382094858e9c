-- ===== src/Bits/Step.antt =====
-- The lowest digit of `&` and of `|`, and what is left when it is cut off.
use Prim.Native.Nat.{digits, bitwise, bit_and-bitwise, bit_or-bitwise}
use stream_os.Base.{
  ℕ, zero, suc, ◌+◌, ◌-◌, ◌*◌, ◌/◌, ◌%◌, ◌≤◌, ◌≡◌, refl, sym, ap, ◌∙◌, arith, min, max, bit_and,
  bit_or,
}

-- With nothing left on the one side, the other side decides.
emptied : (rest : ℕ → ℕ) (digit : ℕ → ℕ → ℕ) (fuel y : ℕ) → digits rest digit fuel zero y ≡ rest y
emptied rest digit zero y = refl
emptied rest digit (suc fuel) y = refl

-- Fuel beyond the first number is never used.
spare_fuel :
    (rest : ℕ → ℕ) (digit : ℕ → ℕ → ℕ) (spare fuel x y : ℕ)
    → x ≤ fuel
    → digits rest digit (fuel + spare) x y ≡ digits rest digit fuel x y
spare_fuel rest digit spare fuel zero y within =
    emptied rest digit (fuel + spare) y ∙ sym (emptied rest digit fuel y)
spare_fuel rest digit spare zero (suc x) y within = absurd (omega arith)
spare_fuel rest digit spare (suc fuel) (suc x) y within =
    let halved = spare_fuel rest digit spare fuel (suc x / 2) (y / 2) (omega arith) in
    ap (λ n. digits rest digit n (suc x) y) {y = suc (fuel + spare)} (omega arith)
    ∙ ap (λ n. n * 2 + digit (suc x % 2) (y % 2)) halved

-- A number that is not zero is cut in half, and the fuel left is enough for the half.
cut_off :
    (rest : ℕ → ℕ) (digit : ℕ → ℕ → ℕ) (x y : ℕ)
    → bitwise rest digit (suc x) y
      ≡ bitwise rest digit (suc x / 2) (y / 2) * 2 + digit (suc x % 2) (y % 2)
cut_off rest digit x y =
    let half = suc x / 2 in
    ap (λ n. digits rest digit n half (y / 2) * 2 + digit (suc x % 2) (y % 2))
      {y = half + (x - half)} (omega arith)
    ∙ ap (λ n. n * 2 + digit (suc x % 2) (y % 2))
        (spare_fuel rest digit (x - half) half half (y / 2) (omega arith))

pub bit_or_step : (x y : ℕ) → bit_or x y ≡ bit_or (x / 2) (y / 2) * 2 + max (x % 2) (y % 2)
bit_or_step x y = simp bit_or-bitwise (by_first x)
  where
    by_first :
        (n : ℕ)
        → bitwise (λ m. m) max n y ≡ bitwise (λ m. m) max (n / 2) (y / 2) * 2 + max (n % 2) (y % 2)
    by_first (suc n) = cut_off (λ m. m) max n y
    by_first zero = omega arith

pub bit_and_step : (x y : ℕ) → bit_and x y ≡ bit_and (x / 2) (y / 2) * 2 + min (x % 2) (y % 2)
bit_and_step x y = simp bit_and-bitwise (by_first x)
  where
    by_first :
        (n : ℕ)
        → bitwise (λ m. 0) min n y ≡ bitwise (λ m. 0) min (n / 2) (y / 2) * 2 + min (n % 2) (y % 2)
    by_first (suc n) = cut_off (λ m. 0) min n y
    by_first zero = omega arith
