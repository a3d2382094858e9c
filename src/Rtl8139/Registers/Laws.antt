-- ===== src/Rtl8139/Registers/Laws.antt =====
-- How a card whose registers keep what is written is set up, and how a card that does not is told.
use stream_os.Base.{
  ℕ, ◌≡◌, refl, ap, ◌∙◌, sym, subst, arith, Bool, true, false, if◌then◌else◌, ◌==◌, ok,
}
use stream_os.BitManipulation.{get_bits, get_bit}
use stream_os.BitManipulation.Laws.{bit_fields}
use stream_os.Rtl8139.Registers.{
  Card, reg, write_checked, update_checked, transmit_config_offset, loopback, append_crc,
  enable_loopback, enable_append_crc, set_transmit_config,
}

-- Registers that keep what is written: what each address holds, that reads give it and change nothing,
-- and that a write changes only its address.
pub record Keeping (C : Card) : Type 0 where
  pub value : C.State → ℕ → ℕ
  pub read_value : (s : C.State) (n a : ℕ) → (C.read n a s).1 ≡ value s a
  pub read_keeps : (s : C.State) (n a b : ℕ) → value (C.read n a s).0 b ≡ value s b
  pub write_value :
      (s : C.State) (n a v b : ℕ) → value (C.write n a v s) b ≡ (if b == a then v else value s b)

same_number : (n : ℕ) → (n == n) ≡ true
same_number n = ground arith

-- What a transmit configuration says, over the one before.
abbrev pub Transmits : Bool → ℕ → ℕ → Type 0
Transmits with_loopback old new =
    (get_bit 32 16 new ≡ true)
    × (get_bits 32 17 2 new ≡ (if with_loopback then 3 else get_bits 32 17 2 old))
    × (get_bits 32 0 16 new ≡ get_bits 32 0 16 old)
    × (get_bits 32 19 13 new ≡ get_bits 32 19 13 old)

crc-Transmits : (old : ℕ) → Transmits false old (append_crc old)
crc-Transmits old = (simp bit_fields, simp bit_fields, simp bit_fields, simp bit_fields)

loopback-Transmits : (old : ℕ) → Transmits true old (append_crc (loopback old))
loopback-Transmits old = (simp bit_fields, simp bit_fields, simp bit_fields, simp bit_fields)

module _ (C : Card) (base : ℕ) (K : Keeping C) where
  back : (n a v : ℕ) (s : C.State) → (C.read n a (C.write n a v s)).1 ≡ v
  back n a v s =
      K.read_value _ n a
      ∙ K.write_value s n a v a
      ∙ ap (λ b. if b then v else K.value s a) (same_number a)

  update_checked-ok :
      (n offset : ℕ) (change : ℕ → ℕ) (s : C.State)
      → (after : C.State) × (update_checked C base n offset change s ≡ (after, ok tt))
        × ((b : ℕ)
            → K.value after b ≡ (
                if b == reg C base offset
                then change (K.value s (reg C base offset))
                else K.value s b))
  unfolding update_checked write_checked
  update_checked-ok n offset change s =
      rw
        (
          K.read_value s n (reg C base offset),
          back n (reg C base offset) (change (K.value s (reg C base offset))),
          same_number (change (K.value s (reg C base offset))),
        )
        (
          _,
          refl,
          λ b.
              K.read_keeps _ n (reg C base offset) b
              ∙ K.write_value _ n (reg C base offset) _ b
              ∙ ap
                  (λ v.
                    if b == reg C base offset then change (K.value s (reg C base offset)) else v)
                  (K.read_keeps s n (reg C base offset) b),
        )

  at_itself :
      (offset : ℕ) (after s : C.State) (x : ℕ)
      → ((b : ℕ) → K.value after b ≡ (if b == reg C base offset then x else K.value s b))
      → K.value after (reg C base offset) ≡ x
  at_itself offset after s x changed =
      changed (reg C base offset)
      ∙ ap (λ b. if b then x else K.value s (reg C base offset)) (same_number (reg C base offset))

  elsewhere :
      (offset : ℕ) (after s : C.State) (x b : ℕ)
      → ((b : ℕ) → K.value after b ≡ (if b == reg C base offset then x else K.value s b))
      → (b == reg C base offset) ≡ false
      → K.value after b ≡ K.value s b
  elsewhere offset after s x b changed other =
      changed b ∙ ap (λ t. if t then x else K.value s b) other

  -- On a card whose registers keep what is written, the transmit configuration is set up without an
  -- error: it appends checksums, loops back if asked to and otherwise as it did before, keeps its
  -- other bits, and no other register changes.
  pub set_transmit_config-ok :
      (with_loopback : Bool) (s : C.State)
      → (after : C.State) × (set_transmit_config C base with_loopback s ≡ (after, ok tt))
        × Transmits with_loopback
            (K.value s (reg C base transmit_config_offset))
            (K.value after (reg C base transmit_config_offset))
        × ((b : ℕ)
            → (b == reg C base transmit_config_offset) ≡ false
            → K.value after b ≡ K.value s b)
  unfolding set_transmit_config enable_loopback enable_append_crc
  set_transmit_config-ok false s =
      let (s1, e, v1) = update_checked-ok 4 transmit_config_offset append_crc s in
      rw e (
        s1,
        refl,
        subst (Transmits false (K.value s (reg C base transmit_config_offset)))
            (sym (at_itself transmit_config_offset s1 s _ v1))
            (crc-Transmits (K.value s (reg C base transmit_config_offset))),
        λ b. elsewhere transmit_config_offset s1 s _ b v1,
      )
  set_transmit_config-ok true s =
      let (s1, e, v1) = update_checked-ok 4 transmit_config_offset loopback s in
      let (s2, f, v2) = update_checked-ok 4 transmit_config_offset append_crc s1 in
      rw (e, f)
        (
          s2,
          refl,
          subst (Transmits true (K.value s (reg C base transmit_config_offset)))
              (sym (
                at_itself transmit_config_offset s2 s1 _ v2
                ∙ ap append_crc (at_itself transmit_config_offset s1 s _ v1)))
              (loopback-Transmits (K.value s (reg C base transmit_config_offset))),
          λ b other.
              elsewhere transmit_config_offset s2 s1 _ b v2 other
              ∙ elsewhere transmit_config_offset s1 s _ b v1 other,
        )
