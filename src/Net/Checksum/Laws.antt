-- ===== src/Net/Checksum/Laws.antt =====
-- The loop's sum is the plain sum of the 16-bit words reduced to ones' complement, so storing the
-- checksum makes the whole sum to zero.
use stream_os.Base.{
  ℕ, ◌+◌, ◌-◌, ◌*◌, ◌/◌, ◌%◌, ◌^◌, ◌<◌, ◌≡◌, refl, ap, ◌∙◌, arith, List, [], ◌∷◌, ◌++◌, some,
  length, length-append, ◌==◌, if◌then◌else◌,
}
use stream_os.Net.Checksum.{add_carry, sum_chunks, calculate_ipv4_checksum}

abbrev pub IsBytes : List ℕ → Type 0
IsBytes [] = Unit {0}
IsBytes (x ∷ xs) = (x < 256) × IsBytes xs

pub IsBytes-append : (xs ys : List ℕ) → IsBytes xs → IsBytes ys → IsBytes (xs ++ ys)
IsBytes-append [] ys h k = k
IsBytes-append (x ∷ xs) ys h k = (h.0, IsBytes-append xs ys h.1 k)

-- The sum of the big-endian words of a list of even length.
abbrev pub sum_words : List ℕ → ℕ
sum_words [] = 0
sum_words (a ∷ []) = a * 256
sum_words (a ∷ b ∷ rest) = a * 256 + b + sum_words rest

-- A sum in ones' complement: 0, or a number from 1 to 65535.
abbrev pub fold16 : ℕ → ℕ
fold16 n = if n == 0 then 0 else (n - 1) % 65535 + 1

fold16-add : (n v : ℕ) → v < 2 ^ 16 → add_carry (fold16 n) v ≡ fold16 (n + v)
unfolding add_carry
fold16-add n v h = ground arith

sum_chunks-eq :
    (n : ℕ) (xs : List ℕ)
    → length xs % 2 ≡ 0
    → IsBytes xs
    → sum_chunks (fold16 n) xs ≡ some (fold16 (n + sum_words xs))
unfolding sum_chunks
sum_chunks-eq n [] even h = ap (λ k. some (fold16 k)) (omega arith)
sum_chunks-eq n (a ∷ []) even h = absurd (omega arith)
sum_chunks-eq n (a ∷ b ∷ rest) even h = rw (fold16-add n (a * 256 + b) (omega arith)) (
    sum_chunks-eq (n + (a * 256 + b)) rest (omega arith) h.1.1
    ∙ ap (λ k. some (fold16 k)) (omega arith))

-- The checksum of an even number of bytes is the complement of their folded sum.
pub calculate-eq :
    (xs : List ℕ)
    → length xs % 2 ≡ 0
    → IsBytes xs
    → calculate_ipv4_checksum xs ≡ some (65535 - fold16 (sum_words xs))
unfolding calculate_ipv4_checksum
calculate-eq xs even h = ground (arith, sum_chunks-eq 0 xs even h)

sum_words-append :
    (xs ys : List ℕ) → length xs % 2 ≡ 0 → sum_words (xs ++ ys) ≡ sum_words xs + sum_words ys
sum_words-append [] ys even = omega arith
sum_words-append (a ∷ []) ys even = absurd (omega arith)
sum_words-append (a ∷ b ∷ rest) ys even = omega (arith, sum_words-append rest ys (omega arith))

-- Both bytes of a word between two parts of even length.
calculate-word :
    (xs ys : List ℕ) (a b : ℕ)
    → length xs % 2 ≡ 0
    → length ys % 2 ≡ 0
    → IsBytes xs
    → IsBytes ys
    → a < 256
    → b < 256
    → calculate_ipv4_checksum (xs ++ (a ∷ b ∷ ys))
      ≡ some (65535 - fold16 (sum_words xs + (a * 256 + b + sum_words ys)))
calculate-word xs ys a b even even' hx hy ha hb =
    calculate-eq (xs ++ (a ∷ b ∷ ys)) (omega (arith, length-append xs (a ∷ b ∷ ys)))
      (IsBytes-append xs (a ∷ b ∷ ys) hx (ha, (hb, hy)))
    ∙ ap (λ k. some (65535 - fold16 k)) (sum_words-append xs (a ∷ b ∷ ys) even)

fold16_complement :
    (m n : ℕ)
    → let c = 65535 - fold16 (m + n) in 65535 - fold16 (m + (c / 256 % 256 * 256 + c % 256 + n)) ≡ 0
fold16_complement m n = ground arith

-- With the checksum of a message stored into a word of it that was zero, the message's checksum is
-- zero, which is how a receiver verifies it.
pub checksum_verifies :
    (xs ys : List ℕ) (c : ℕ)
    → length xs % 2 ≡ 0
    → length ys % 2 ≡ 0
    → IsBytes xs
    → IsBytes ys
    → calculate_ipv4_checksum (xs ++ (0 ∷ 0 ∷ ys)) ≡ some c
    → calculate_ipv4_checksum (xs ++ (c / 256 % 256 ∷ c % 256 ∷ ys)) ≡ some 0
checksum_verifies xs ys c even even' hx hy e = rw value (
    calculate-word xs ys _ _ even even' hx hy (omega arith) (omega arith)
    ∙ ap some (fold16_complement (sum_words xs) (sum_words ys)))
  where
    value : c ≡ 65535 - fold16 (sum_words xs + sum_words ys)
    value = ground (arith, calculate-word xs ys 0 0 even even' hx hy)

sum_chunks-total : (n : ℕ) (xs : List ℕ) → length xs % 2 ≡ 0 → (c : ℕ) × (sum_chunks n xs ≡ some c)
unfolding sum_chunks
sum_chunks-total n [] even = (n, refl)
sum_chunks-total n (a ∷ []) even = absurd (omega arith)
sum_chunks-total n (a ∷ b ∷ rest) even =
    sum_chunks-total (add_carry n (a * 256 + b)) rest (omega arith)

pub calculate-total :
    (xs : List ℕ) → length xs % 2 ≡ 0 → (c : ℕ) × (calculate_ipv4_checksum xs ≡ some c)
unfolding calculate_ipv4_checksum
calculate-total xs even = let (c, e) = sum_chunks-total 0 xs even in (65535 - c, rw (even, e))
