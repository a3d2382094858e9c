-- ===== src/Pci/Registers.antt =====
-- Probing a device for its memory range leaves its configuration as it was.
use stream_os.Base.{
  ℕ, ◌+◌, ◌*◌, ◌%◌, ◌^◌, ◌-◌, ◌≡◌, refl, ap, ◌∙◌, sym, subst, fun_ext, arith, List, [], ◌∷◌, Option,
  none, some, ◌>>=◌, Bool, true, false, not, ◌&&◌, ◌==◌, ltb, if◌then◌else◌, u8, u32, bit_and,
  Bool-cases, inl, inr,
}
use stream_os.BitManipulation.{get_bit, not_word}
use stream_os.Io.Ports.{Ports}
use stream_os.Pci.{
  PciAddress, Pci, MmapRange, address_word, read_register, write_register, probe, find_mmap_from,
  find_mmap_range, base_registers,
}
use stream_os.Pci.Laws.{pci_ports, config_read-some, config_write-some}

-- How the configuration space behaves behind its two ports: what each register holds by the address
-- that selects it, that reads give it and change none, and that a write stores what the register can
-- hold of it, and changes no other register. What a register holds, it can hold.
pub record ConfigSpace (P : Ports) : Type 0 where
  pub value : P.State → ℕ → ℕ
  pub stored : ℕ → ℕ → ℕ
  pub read_value : (s : P.State) (w : ℕ) → (P.input 4 0xCFC (P.output 4 0xCF8 w s)).1 ≡ value s w
  pub read_keeps :
      (s : P.State) (w v : ℕ) → value (P.input 4 0xCFC (P.output 4 0xCF8 w s)).0 v ≡ value s v
  pub write_value :
      (s : P.State) (w x v : ℕ)
      → value (P.output 4 0xCFC x (P.output 4 0xCF8 w s)) v
        ≡ (if v == w then stored w x else value s v)
  pub holds : (s : P.State) (w : ℕ) → stored w (value s w) ≡ value s w

abbrev pub register_word : PciAddress → ℕ → ℕ
register_word a register = address_word a (u8 (register * 4))

if_same : (w x y : ℕ) → (if w == w then x else y) ≡ x
if_same w x y = ground arith

-- What a register holds after a write to some register, a read, and a write that restores that one.
restored :
    (v w k n3 n2 n1 m n0 : ℕ)
    → n3 ≡ (if v == w then k else n2)
    → n2 ≡ n1
    → n1 ≡ (if v == w then m else n0)
    → (v ≡ w → k ≡ n0)
    → n3 ≡ n0
restored v w k n3 n2 n1 m n0 e3 e2 e1 back = elim (Bool-cases (v == w)) [
  | inr other ↦ ground arith
  | inl same ↦ let e : v ≡ w = ground arith in let f : k ≡ n0 = back e in ground arith
]

module _ (P : Ports) (space : ConfigSpace P) where
  -- The range that the first base register with an address in memory asks for, if the registers have
  -- the given values: its start, and the size that the bits that it cannot hold make up.
  abbrev pub range_at : (ℕ → ℕ) → PciAddress → ℕ → MmapRange
  range_at values a register = record {
    start = bit_and (values (register_word a register)) (not_word 32 0b1111);
    length = u32 (
        not_word 32
          (bit_and (space.stored (register_word a register) (2 ^ 32 - 1)) (not_word 32 0b1111))
        + 1);
  }

  abbrev pub first_range : List ℕ → (ℕ → ℕ) → PciAddress → Option MmapRange
  first_range [] values a = none
  first_range (register ∷ registers) values a =
      let base_address = values (register_word a register) in
      if not (get_bit 32 0 base_address) && ltb 0 base_address
      then some (range_at values a register)
      else first_range registers values a

  -- Every register holds the same.
  abbrev pub IsSame : P.State → P.State → Type 0
  IsSame s after = (v : ℕ) → space.value after v ≡ space.value s v

  module _ (pci : Pci) (a : PciAddress) (io : pci.pci_io ≡ pci_ports) where
    aligned : (register : ℕ) → u8 (register * 4) % 4 ≡ 0
    aligned register = omega arith

    pub reads :
        (register : ℕ) (s : P.State)
        → (after : P.State) × (read_register P pci a register s
            ≡ some (after, space.value s (register_word a register)))
          × IsSame s after
    unfolding read_register
    reads register s = rw (config_read-some P pci a (u8 (register * 4)) s io (aligned register)) (
      _,
      ap (λ n. some ((P.input 4 0xCFC (P.output 4 0xCF8 (register_word a register) s)).0, n))
          (space.read_value s (register_word a register)),
      λ v. space.read_keeps s (register_word a register) v,
    )

    pub writes :
        (register x : ℕ) (s : P.State)
        → (after : P.State) × (write_register P pci a register x s ≡ some after)
          × ((v : ℕ)
              → space.value after v ≡ (
                  if v == register_word a register
                  then space.stored (register_word a register) x
                  else space.value s v))
    unfolding write_register
    writes register x s =
        rw (config_write-some P pci a (u8 (register * 4)) s x io (aligned register))
          (_, refl, λ v. space.write_value s (register_word a register) x v)

    probe-IsSame :
        (register : ℕ) (s : P.State)
        → (after : P.State) × (probe P register (space.value s (register_word a register)) pci a s
            ≡ some (after, range_at (space.value s) a register))
          × IsSame s after
    unfolding probe
    probe-IsSame register s =
        let (s1, e1, w1) = writes register (2 ^ 32 - 1) s in
        let (s2, e2, r2) = reads register s1 in
        let (s3, e3, w3) = writes register (space.value s (register_word a register)) s2 in
        rw (e1, e2, e3)
          (
            s3,
            ap
                (λ end_address. some (
                  s3,
                  record {
                    start = bit_and (space.value s (register_word a register)) (not_word 32 0b1111);
                    length = u32 (not_word 32 (bit_and end_address (not_word 32 0b1111)) + 1);
                  },
                ))
                (w1 (register_word a register) ∙ if_same (register_word a register) _ _),
            λ v.
                restored v (register_word a register) _ _ _ _ _ _ (w3 v) (r2 v) (w1 v)
                  λ e. space.holds s (register_word a register) ∙ ap (space.value s) (sym e),
          )

    -- What probing and going on find, after a read that changed no register.
    found_at :
        (registers : List ℕ) (register : ℕ) (s s1 : P.State) (b : Bool)
        → (same : space.value s1 ≡ space.value s)
        → ((after : P.State) × (find_mmap_from P registers pci a s1
              ≡ some (after, first_range registers (space.value s1) a))
            × IsSame s1 after)
        → (after : P.State) × ((if b
              then (probe P register (space.value s (register_word a register)) pci a s1
                  >>= λ (s2, range). some (s2, some range))
              else find_mmap_from P registers pci a s1)
            ≡ some (
              after,
              if b
                  then some (range_at (space.value s) a register)
                  else first_range registers (space.value s) a,
            ))
          × IsSame s after
    found_at registers register s s1 b same later =
        subst
          (λ values.
            (after : P.State) × ((if b
                then (probe P register (values (register_word a register)) pci a s1
                    >>= λ (s2, range). some (s2, some range))
                else find_mmap_from P registers pci a s1)
              ≡ some (
                after,
                if b then some (range_at values a register) else first_range registers values a,
              ))
            × ((v : ℕ) → space.value after v ≡ values v))
          same (by_case b)
      where
        by_case :
            (b : Bool)
            → (after : P.State) × ((if b
                  then (probe P register (space.value s1 (register_word a register)) pci a s1
                      >>= λ (s2, range). some (s2, some range))
                  else find_mmap_from P registers pci a s1)
                ≡ some (
                  after,
                  if b
                      then some (range_at (space.value s1) a register)
                      else first_range registers (space.value s1) a,
                ))
              × IsSame s1 after
        by_case true = let (after, e, is) = probe-IsSame register s1 in rw e (after, refl, is)
        by_case false = later

    find_mmap_from-IsSame :
        (registers : List ℕ) (s : P.State)
        → (after : P.State) × (find_mmap_from P registers pci a s
            ≡ some (after, first_range registers (space.value s) a))
          × IsSame s after
    unfolding find_mmap_from
    find_mmap_from-IsSame [] s = (s, refl, λ v. refl)
    find_mmap_from-IsSame (register ∷ registers) s =
        let (s1, e, same) = reads register s in
        rw e
          (found_at registers register s s1 _ (fun_ext same) (find_mmap_from-IsSame registers s1))

    -- On hardware that behaves as a configuration space, looking for the memory range of a device
    -- does not panic, gives the range of the first of the six base registers that asks for memory, with
    -- the start that it holds and the size that it can decode, and leaves every register of every
    -- device as it was.
    pub find_mmap_range-IsSame :
        (s : P.State)
        → (after : P.State) × (find_mmap_range P pci a s
            ≡ some (after, first_range base_registers (space.value s) a))
          × IsSame s after
    unfolding find_mmap_range
    find_mmap_range-IsSame s = find_mmap_from-IsSame base_registers s
