-- ===== src/Net/Udp/Laws.antt =====
-- When a UDP frame is accepted, when reading it panics, and that a generated one is read back.
use stream_os.Base.{
  ℕ, ◌+◌, ◌*◌, ◌/◌, ◌%◌, ◌^◌, ◌<◌, ◌≤◌, ◌≡◌, ◌↔◌, refl, arith, List, [], ◌++◌, none, some, ok, err,
  length, length-append, slice-middle, slice-some, slice-none, u16_be_at, u16_be_at-some,
  u16_be_at-none, ltb, ltb→lt, Bool-cases, inl, inr, if◌then◌else◌,
}
use stream_os.Net.Udp.{invalid, udp_length, new, udp_data, generate_udp_frame}

new-long :
    (p : List ℕ) (v : ℕ)
    → u16_be_at p 4 ≡ some v
    → new p
      ≡ some (
          if ltb (length p) 8
          then err (invalid (length p) v)
          else if ltb (length p) v
          then err (invalid (length p) v)
          else ok p)
unfolding new udp_length
new-long p v e = rw e (ground arith)

-- Validation answers exactly for packets of six bytes or more. A shorter packet, which it should
-- refuse, makes it panic over the length that its error is to hold.
pub udp_new-panics_iff : (p : List ℕ) → (new p ≡ none) ↔ (length p < 6)
udp_new-panics_iff p = elim (Bool-cases (ltb (length p) 6)) [
  | inl short ↦ (
    λ _. ltb→lt _ _ short,
    λ _. unfold new udp_length in rw (u16_be_at-none p 4 (ground arith)) (ground arith),
  )
  | inr long ↦ let (v, e) = u16_be_at-some p 4 (ground arith) in answers v e (ground arith)
]
  where
    answers : (v : ℕ) → u16_be_at p 4 ≡ some v → 6 ≤ length p → (new p ≡ none) ↔ (length p < 6)
    answers v e long = ground (arith, new-long p v e)

-- Reading the data of an accepted packet panics exactly when its length field is less than the
-- header's eight bytes.
pub udp_data-panics_iff :
    (p q : List ℕ) (v : ℕ)
    → new p ≡ some (ok q)
    → udp_length p ≡ some v
    → (udp_data p ≡ none) ↔ (v < 8)
unfolding udp_data udp_length
udp_data-panics_iff p q v accepted read = rw read (elim (Bool-cases (ltb v 8)) [
  | inl short ↦ (λ _. ltb→lt _ _ short, λ _. slice-none p 8 v (inl (ground arith)))
  | inr enough ↦
      let found = slice-some p 8 v (ground arith) (ground (arith, new-long p v read)) in
      (λ e. absurd (ground arith), λ h. absurd (ground arith))
])

-- A generated frame of a payload that fits is accepted, with other bytes behind it too, and gives
-- back its length and its payload.
generate_udp_frame-new :
    (port : ℕ) (payload padding : List ℕ)
    → 8 + length payload < 2 ^ 16
    → let f = generate_udp_frame port payload ++ padding in
      (new f ≡ some (ok f))
      × (u16_be_at f 2 ≡ some (port / 256 % 256 * 256 + port % 256))
      × (udp_length f ≡ some (8 + length payload))
      × (udp_data f ≡ some payload)
unfolding new udp_length udp_data generate_udp_frame u16_be_at
generate_udp_frame-new port payload padding fits = rw (len_field (length payload) fits) (
  ground (arith, length-append payload padding),
  refl,
  refl,
  ground (arith, slice-middle [] payload padding 0 (length payload)),
)
  where
    len_field :
        (n : ℕ)
        → 8 + n < 2 ^ 16
        → (8 + n % 2 ^ 16) % 2 ^ 16 / 256 % 256 * 256 + (8 + n % 2 ^ 16) % 2 ^ 16 % 256 ≡ 8 + n
    len_field n h = omega arith
