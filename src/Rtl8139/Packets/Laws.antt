-- ===== src/Rtl8139/Packets/Laws.antt =====
-- Packets are read off the ring in order, and what a descriptor is given.
use stream_os.Base.{
  ℕ, zero, suc, ◌+◌, ◌*◌, ◌/◌, ◌%◌, ◌^◌, ◌-◌, ◌<◌, ◌≡◌, refl, ap, ap₂, ◌∙◌, sym, subst, arith, List,
  [], ◌∷◌, length, if◌then◌else◌, ltb, u16, bit_and,
}
use stream_os.Bits.{digit, digit_ext, digit-and, digit-lt, digit_small, digit-shl, digit-shr}
use stream_os.BitManipulation.{not_word}
use stream_os.BitManipulation.Laws.{digit-not_word, digit-ones}
use stream_os.Rtl8139.Registers.{Card, reg, capr_offset}
use stream_os.Rtl8139.Packets.{
  bytes_at, u16_at, packet_at, next_capr, get_packet, increment_capr, read,
}

and_not_three : (x : ℕ) → x < 2 ^ 16 → bit_and x (not_word 16 0b11) ≡ x / 2 ^ 2 * 2 ^ 2
and_not_three x h = digit_ext _ _ λ i.
    rw
      (
        digit-and,
        digit-not_word 16 0b11 i (omega arith),
        digit-ones 2 i,
        digit-shl (x / 2 ^ 2) 2 i,
        digit-shr x 2 (i - 2),
      )
      (ground (arith, digit_small x 16 i h, digit-lt x i, ap (digit x) (pad i)))
  where
    pad : (i : ℕ) → 2 + (i - 2) ≡ (if ltb i 2 then 2 else i)
    pad i = ground arith

-- Where the card puts what follows a packet of `n` bytes: behind its header and length, aligned to
-- four bytes, in a ring of 64 kB.
abbrev pub after_packet : ℕ → ℕ → ℕ
after_packet capr n = (capr + (n + 4 + 3) / 4 * 4) % 2 ^ 16

next_capr-after_packet :
    (buf : ℕ → ℕ) (capr n : ℕ)
    → u16_at buf (u16 (capr + 16) + 2) ≡ n
    → capr < 2 ^ 16
    → capr % 4 ≡ 0
    → n + 7 < 2 ^ 16
    → next_capr buf capr ≡ after_packet capr n
unfolding next_capr
next_capr-after_packet buf capr n e h aligned k =
    rw (e, and_not_three (u16 (capr + u16 (n + 7))) (omega arith)) (omega arith)

-- The buffer holds these packets, one behind the other, from the read position on.
abbrev pub AreLaid : (ℕ → ℕ) → ℕ → List (List ℕ) → Type 0
AreLaid buf capr [] = Unit {0}
AreLaid buf capr (packet ∷ packets) =
    (u16_at buf (u16 (capr + 16) + 2) ≡ length packet)
    × (bytes_at buf (u16 (capr + 16) + 4) (length packet) ≡ packet)
    × (length packet + 7 < 2 ^ 16)
    × AreLaid buf (after_packet capr (length packet)) packets

abbrev pub after_all : ℕ → List (List ℕ) → ℕ
after_all capr [] = capr
after_all capr (packet ∷ packets) = after_all (after_packet capr (length packet)) packets

next_capr-lt : (buf : ℕ → ℕ) (capr : ℕ) → next_capr buf capr < 2 ^ 16
unfolding next_capr
next_capr-lt buf capr =
    rw (and_not_three (u16 (capr + u16 (u16_at buf (u16 (capr + 16) + 2) + 7))) (omega arith))
      (omega arith)

-- How the read position behaves: reads give it, reads of the card's registers do not move it, and a
-- write sets it.
pub record ReadPosition (C : Card) (base : ℕ) : Type 0 where
  pub capr : C.State → ℕ
  pub reads_capr : (s : C.State) → (C.read 2 (reg C base capr_offset) s).1 ≡ capr s
  pub keeps_capr : (s : C.State) (n addr : ℕ) → capr (C.read n addr s).0 ≡ capr s
  pub sets_capr :
      (s : C.State) (v : ℕ) → v < 2 ^ 16 → capr (C.write 2 (reg C base capr_offset) v s) ≡ v

-- The packets of some reads.
abbrev pub read_all : (C : Card) → ℕ → (ℕ → ℕ) → ℕ → C.State → C.State × List (List ℕ)
unfolding read
read_all C base buf zero s = (s, [])
read_all C base buf (suc n) s =
    let (s1, packet) = read C base buf s in
    let (s2, packets) = read_all C base buf n s1 in (s2, packet ∷ packets)

module _ (C : Card) (base : ℕ) (P : ReadPosition C base) (buf : ℕ → ℕ) where
  read_lem :
      (s : C.State) (packet : List ℕ)
      → P.capr s < 2 ^ 16
      → P.capr s % 4 ≡ 0
      → u16_at buf (u16 (P.capr s + 16) + 2) ≡ length packet
      → bytes_at buf (u16 (P.capr s + 16) + 4) (length packet) ≡ packet
      → length packet + 7 < 2 ^ 16
      → ((read C base buf s).1 ≡ packet)
        × (P.capr (read C base buf s).0 ≡ after_packet (P.capr s) (length packet))
  unfolding read get_packet increment_capr packet_at
  read_lem s packet h aligned len bytes k = (
    rw (P.reads_capr s, len) bytes,
    P.sets_capr _ _ (next_capr-lt buf _)
        ∙ ap (next_capr buf) (P.reads_capr _ ∙ P.keeps_capr _ _ _ ∙ P.keeps_capr _ _ _)
        ∙ next_capr-after_packet buf (P.capr s) (length packet) len h aligned k,
  )

  -- If the buffer holds some packets behind the read position, then as many reads give exactly these
  -- packets in order, and leave the position behind the last one; it wraps around at 64 kB.
  pub read_all-AreLaid :
      (packets : List (List ℕ)) (s : C.State)
      → P.capr s < 2 ^ 16
      → P.capr s % 4 ≡ 0
      → AreLaid buf (P.capr s) packets
      → ((read_all C base buf (length packets) s).1 ≡ packets)
        × (P.capr (read_all C base buf (length packets) s).0 ≡ after_all (P.capr s) packets)
  unfolding read_all
  read_all-AreLaid [] s h aligned laid = (refl, refl)
  read_all-AreLaid (packet ∷ packets) s h aligned laid =
      let (first, moved) = read_lem s packet h aligned laid.0 laid.1 laid.2 in
      let (rest, last) =
        read_all-AreLaid packets (read C base buf s).0
          (subst (λ c. c < 2 ^ 16) (sym moved) (omega arith))
          (subst (λ c. c % 4 ≡ 0) (sym moved) (omega arith))
          (subst (λ c. AreLaid buf c packets) (sym moved) laid.3) in
      (ap₂ (λ x xs. x ∷ xs) first rest, last ∙ ap (λ c. after_all c packets) moved)
