-- ===== src/Net/Ipv4/Laws.antt =====
-- When validation panics.
use stream_os.Base.{
  ℕ, suc, ◌*◌, ◌%◌, ◌≤◌, ◌<◌, ◌≡◌, ◌↔◌, refl, arith, List, ◌∷◌, none, some, ok, err, ltb,
  if◌then◌else◌, length, Bool-cases, inl, inr, u16_be_at, u16_be_at-some, u16_be_at-none,
  slice-some, slice-none, ltb→lt, u8,
}
use stream_os.BitManipulation.{get_bits}
use stream_os.BitManipulation.Laws.{get_bits-arith}
use stream_os.Net.Ipv4.{new, ihl, header_length, total_length, payload, invalid}

ihl-arith : (b : ℕ) → get_bits 8 0 4 b ≡ b % 16
ihl-arith b = omega (arith, get_bits-arith 8 0 4 b refl)

new_of_total :
    (b : ℕ) (rest : List ℕ) (v : ℕ)
    → u16_be_at (b ∷ rest) 2 ≡ some v
    → new (b ∷ rest)
      ≡ some (
          if ltb (suc (length rest)) (b % 16 * 4)
          then err invalid
          else if ltb (suc (length rest)) v
          then err invalid
          else ok (b ∷ rest))
unfolding new header_length ihl total_length
new_of_total b rest v e = rw (ihl-arith b, e) (ground arith)

new_of_short :
    (b : ℕ) (rest : List ℕ)
    → length rest < 3
    → new (b ∷ rest) ≡ (if ltb (suc (length rest)) (b % 16 * 4) then some (err invalid) else none)
unfolding new header_length ihl total_length
new_of_short b rest h = rw (ihl-arith b, u16_be_at-none (b ∷ rest) 2 (omega arith))

-- Validation panics exactly on a packet of one to three bytes of which the header length, four
-- times the low half of its first byte, is not more than the packet's length.
pub ipv4_new-panics_iff :
    (b : ℕ) (rest : List ℕ)
    → (new (b ∷ rest) ≡ none) ↔ ((length rest < 3) × (b % 16 * 4 ≤ suc (length rest)))
ipv4_new-panics_iff b rest = elim (Bool-cases (ltb (length rest) 3)) [
  | inl short ↦ ground (arith, new_of_short b rest)
  | inr long ↦ let (v, e) = u16_be_at-some (b ∷ rest) 2 (ground arith) in answers v (ground arith) e
]
  where
    answers :
        (v : ℕ)
        → 3 ≤ length rest
        → u16_be_at (b ∷ rest) 2 ≡ some v
        → (new (b ∷ rest) ≡ none) ↔ ((length rest < 3) × (b % 16 * 4 ≤ suc (length rest)))
    answers v long e = ground (arith, new_of_total b rest v e)

-- Reading the payload of an accepted packet panics exactly when its total length is less than its
-- header length.
pub ipv4_payload-panics_iff :
    (b : ℕ) (rest q : List ℕ) (total : ℕ)
    → new (b ∷ rest) ≡ some (ok q)
    → total_length (b ∷ rest) ≡ some total
    → (payload (b ∷ rest) ≡ none) ↔ (total < b % 16 * 4)
unfolding payload ihl total_length
ipv4_payload-panics_iff b rest q total accepted read =
    rw (ihl-arith b, read)
      (elim (Bool-cases (ltb total (b % 16 * 4))) [
        | inl short ↦ (
          λ _. ltb→lt _ _ short,
          λ _. slice-none (b ∷ rest) (u8 (b % 16 * 4)) total (inl (ground arith)),
        )
        | inr enough ↦
            let some_payload =
              slice-some (b ∷ rest) (u8 (b % 16 * 4)) total (ground arith)
                (within (ground arith)) in
            (λ e. absurd (ground arith), λ h. absurd (ground arith))
      ])
  where
    within : b % 16 * 4 ≤ total → total ≤ suc (length rest)
    within h = ground (arith, new_of_total b rest total read)
