-- ===== src/BitManipulation/Laws.antt =====
-- What the bit fields hold, digit by digit.
use native.Mathlib.Nat.{
  one-le-pow, mod-eq_of_lt, mod-lt, one-mul, two-pow-succ, pow-le-pow_right, add-sub_cancel_left,
}
use stream_os.Base.{
  bit_and, ℕ, ◌+◌, ◌-◌, ◌*◌, ◌/◌, ◌%◌, ◌^◌, ◌≤◌, ◌<◌, ◌≡◌, ap, arith, Bool, true, false,
  bool_to_nat, ◌==◌, ◌&&◌, ◌||◌, ltb, leb, if◌then◌else◌,
}
use stream_os.Bits.{
  digit, digit-lt, digit-zero, digit_small, digit-and, digit-or, digit-shl, digit-shr, digit-mod,
  digit-not, digit_ext, lt_of_digits,
}
use stream_os.BitManipulation.{shl, not_word, set_bits, set_bit, get_bits, get_bit}

-- The field of `l` digits from digit `s` lies within a word of `w` bits, and is no whole word.
abbrev pub Fits : ℕ → ℕ → ℕ → Type 0
Fits w s l = (ltb s w && ltb l w && leb (s + l) w) ≡ true

Fits-lt : (w s l : ℕ) → Fits w s l → (s < w) × (l < w) × (s + l ≤ w)
Fits-lt w s l h = ground arith

pow_lt : (l w : ℕ) → l < w → 2 ^ l < 2 ^ w
pow_lt l w h =
    omega (arith, two-pow-succ l, one-le-pow l 2, pow-le-pow_right {n = 2} (omega arith) h)

pub digit-ones : (l i : ℕ) → digit (2 ^ l - 1) i ≡ (if ltb i l then 1 else 0)
digit-ones l i =
    ground (arith, one-le-pow l 2, digit-not 0 l i, digit-zero i, digit_small (2 ^ l - 1) l i)

pub and_ones : (x l : ℕ) → bit_and x (2 ^ l - 1) ≡ x % 2 ^ l
and_ones x l =
    digit_ext _ _ λ i. rw (digit-and, digit-ones, digit-mod) (ground (arith, digit-lt x i))

one-mul-mod : (l w : ℕ) → l < w → 1 * 2 ^ l % 2 ^ w ≡ 2 ^ l
one-mul-mod l w h = rw one-mul (mod-eq_of_lt (pow_lt l w h))

shl_one : (w l : ℕ) → l < w → shl w 1 l ≡ 2 ^ l
shl_one w l h = rw (mod-eq_of_lt h) (one-mul-mod l w h)

mask_lem : (w l : ℕ) → l < w → shl w 1 l - 1 ≡ 2 ^ l - 1
mask_lem w l h = ap (λ t. t - 1) (shl_one w l h)

digit-mask :
    (w s l i : ℕ)
    → Fits w s l
    → digit (shl w (2 ^ l - 1) s) i ≡ (if leb s i && ltb i (s + l) then 1 else 0)
digit-mask w s l i h =
    rw (mod-eq_of_lt (Fits-lt w s l h).0, digit-mod, digit-shl, digit-ones)
      (ground (arith, Fits-lt w s l h))

pub digit-get_bits :
    (w s l x i : ℕ)
    → Fits w s l
    → digit (get_bits w s l x) i ≡ (if ltb i l then digit x (s + i) else 0)
unfolding get_bits
digit-get_bits w s l x i h =
    rw
      (
        mask_lem w l (Fits-lt w s l h).1,
        mod-eq_of_lt (Fits-lt w s l h).0,
        digit-and,
        digit-shr,
        digit-ones,
      )
      (ground (arith, digit-lt x (s + i)))

pub digit-not_word :
    (w m i : ℕ) → m < 2 ^ w → digit (not_word w m) i ≡ (if ltb i w then 1 - digit m i else 0)
digit-not_word w m i h = ground (arith, digit-not m w i, digit_small (2 ^ w - 1 - m) w i)

-- Digit by digit: the field holds the low digits of `v`, and every other digit is kept.
pub digit-set_bits :
    (w s l v x i : ℕ)
    → Fits w s l
    → digit (set_bits w s l v x) i
      ≡ (if ltb i w then (if leb s i && ltb i (s + l) then digit v (i - s) else digit x i) else 0)
unfolding set_bits
digit-set_bits w s l v x i h =
    rw
      (
        mask_lem w l (Fits-lt w s l h).1,
        digit-or,
        digit-and x,
        digit-and (shl w v s),
        digit-not_word w (shl w (2 ^ l - 1) s) i
            (mod-lt ((2 ^ l - 1) * 2 ^ (s % w)) (one-le-pow w 2 (omega arith))),
        digit-mask w s l i h,
        mod-eq_of_lt (Fits-lt w s l h).0,
        digit-mod,
        digit-shl,
      )
      (ground (arith, digit-lt x i, digit-lt v (i - s), Fits-lt w s l h))

module _ (w s l v x : ℕ) (h : Fits w s l) where
  -- Reading a field back gives the low digits of what was written.
  pub get_bits-set_bits : get_bits w s l (set_bits w s l v x) ≡ v % 2 ^ l
  get_bits-set_bits = digit_ext _ _ λ i.
      rw
        (
          digit-get_bits w s l (set_bits w s l v x) i h,
          digit-set_bits w s l v x (s + i) h,
          digit-mod,
        )
        (ground (arith, Fits-lt w s l h, ap (digit v) (add-sub_cancel_left s i)))

  -- A write leaves a disjoint field alone.
  pub get_bits-set_bits_ne :
      (s' l' : ℕ)
      → Fits w s' l'
      → (leb (s + l) s' || leb (s' + l') s) ≡ true
      → get_bits w s' l' (set_bits w s l v x) ≡ get_bits w s' l' x
  get_bits-set_bits_ne s' l' h' apart = digit_ext _ _ λ i.
      rw
        (
          digit-get_bits w s' l' (set_bits w s l v x) i h',
          digit-get_bits w s' l' x i h',
          digit-set_bits w s l v x (s' + i) h,
        )
        (ground (arith, Fits-lt w s l h, Fits-lt w s' l' h'))

  pub set_bits-lt : set_bits w s l v x < 2 ^ w
  set_bits-lt = lt_of_digits _ w λ i below. rw (digit-set_bits w s l v x i h) (ground arith)

pub get_bits-arith : (w s l x : ℕ) → Fits w s l → get_bits w s l x ≡ x / 2 ^ s % 2 ^ l
get_bits-arith w s l x h = digit_ext _ _ λ i. rw (digit-get_bits w s l x i h, digit-mod, digit-shr)

pub get_bits-zero : (w s l : ℕ) → Fits w s l → get_bits w s l 0 ≡ 0
get_bits-zero w s l h =
    digit_ext _ _ λ i. rw (digit-get_bits w s l 0 i h, digit-zero) (ground (arith, digit-zero i))

module _ (w s : ℕ) (b : Bool) (x : ℕ) (h : Fits w s 1) where
  pub get_bit-set_bit : get_bit w s (set_bit w s b x) ≡ b
  unfolding get_bit set_bit
  get_bit-set_bit = rw (get_bits-set_bits w s 1 (bool_to_nat b) x h) (ground arith)

  pub get_bits-set_bit_ne :
      (s' l' : ℕ)
      → Fits w s' l'
      → (leb (s + 1) s' || leb (s' + l') s) ≡ true
      → get_bits w s' l' (set_bit w s b x) ≡ get_bits w s' l' x
  unfolding set_bit
  get_bits-set_bit_ne s' l' h' apart = get_bits-set_bits_ne w s 1 (bool_to_nat b) x h s' l' h' apart

  pub get_bit-set_bit_ne :
      (s' : ℕ)
      → Fits w s' 1
      → (leb (s + 1) s' || leb (s' + 1) s) ≡ true
      → get_bit w s' (set_bit w s b x) ≡ get_bit w s' x
  unfolding get_bit
  get_bit-set_bit_ne s' h' apart = ap (λ t. t == 1) (get_bits-set_bit_ne s' 1 h' apart)

  pub set_bit-lt : set_bit w s b x < 2 ^ w
  unfolding set_bit
  set_bit-lt = set_bits-lt w s 1 (bool_to_nat b) x h

pub get_bit-set_bits_ne :
    (w s l v x : ℕ)
    → Fits w s l
    → (s' : ℕ) → Fits w s' 1
    → (leb (s + l) s' || leb (s' + 1) s) ≡ true
    → get_bit w s' (set_bits w s l v x) ≡ get_bit w s' x
unfolding get_bit
get_bit-set_bits_ne w s l v x h s' h' apart =
    ap (λ t. t == 1) (get_bits-set_bits_ne w s l v x h s' 1 h' apart)

pub get_bit-zero : (w s : ℕ) → Fits w s 1 → get_bit w s 0 ≡ false
unfolding get_bit
get_bit-zero w s h = rw (get_bits-zero w s 1 h)

-- Reads a field of a register that was put together by writes: `simp` checks by evaluation that the
-- fields fit and do not overlap.
pub ruleset bit_fields = (
  get_bits-set_bits, get_bits-set_bits_ne, get_bit-set_bit, get_bits-set_bit_ne, get_bit-set_bit_ne,
  get_bit-set_bits_ne, get_bits-zero, get_bit-zero,
)
