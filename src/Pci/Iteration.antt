-- ===== src/Pci/Iteration.antt =====
-- The iteration over all functions of all devices comes to an end, and to each function once.
use stream_os.Base.{
  ℕ, zero, suc, ◌+◌, ◌<◌, ◌≤◌, ◌≡◌, ◌≢◌, ◌⊎◌, ok, err, ==_iff, refl, sym, subst, arith, [], ◌∷◌,
  ◌++◌, some, ◌>>=◌, true, false, ◌==◌, if◌then◌else◌, u16, Bool-cases, inl, inr, Result,
}
use stream_os.BitManipulation.{get_bits}
use stream_os.Io.Ports.{Ports}
use stream_os.Pci.{
  PciAddress, Pci, PciDevice, InvalidHeaderError, PciDeviceIter, increment_iter, address_of,
  address_word, general, pci_pci_bridge, pci_card_bus_bridge, invalid_header, device_of,
  config_read, read_register, upgrade, Next, out_of_turns, no_more, item, next,
}
use stream_os.Pci.Laws.{pci_ports, config_read-some}
use stream_os.Pci.Position.{
  index, position, IsWithin, increment_lem, AreBefore, AreBefore-weaken, AreBefore-append,
  contains-before, grows, same-le, position-le,
}

-- What a header's type says of the function at an address.
abbrev pub IsDevice : PciAddress → ℕ → Result PciDevice InvalidHeaderError → Type 0
IsDevice a header_type device =
    ((header_type ≡ 0) × (device ≡ ok (general a)))
    ⊎ ((header_type ≡ 1) × (device ≡ ok pci_pci_bridge))
    ⊎ ((header_type ≡ 2) × (device ≡ ok pci_card_bus_bridge))
    ⊎ ((2 < header_type) × (device ≡ err invalid_header))

device_of-IsDevice : (n : ℕ) (a : PciAddress) → IsDevice a n (device_of n a)
device_of-IsDevice n a = elim (Bool-cases (n == 0)) [
  | inl plain ↦ rw plain (inl (ground arith, refl))
  | inr other ↦ rw other (elim (Bool-cases (n == 1)) [
    | inl bridge ↦ rw bridge (inr (inl (ground arith, refl)))
    | inr other1 ↦ rw other1 (elim (Bool-cases (n == 2)) [
      | inl card_bus ↦ rw card_bus (inr (inr (inl (ground arith, refl))))
      | inr unknown ↦ rw unknown (inr (inr (inr (ground arith, refl))))
    ])
  ])
]

abbrev pub vendor : ℕ → ℕ
vendor device_vendor = u16 (get_bits 32 0 16 device_vendor)

module _ (P : Ports) where
  upgrade-some :
      (a : PciAddress) (pci : Pci) (s : P.State)
      → pci.pci_io ≡ pci_ports
      → AreBefore (index a) pci.allocated_devs
      → (after : P.State) × (header : ℕ) × (read_register P pci a 3 s ≡ some (after, header))
        × (upgrade P a pci s
            ≡ some (
              record pci { allocated_devs = pci.allocated_devs ++ (a ∷ []) },
              after,
              device_of (get_bits 32 16 8 header) a,
            ))
  unfolding upgrade read_register
  upgrade-some a pci s io fresh =
      rw (config_read-some P pci a 12 s io refl, contains-before pci.allocated_devs a fresh)
        (_, _, refl, refl)

  -- The functions that an iteration passes over, from one state of it and of the hardware to another:
  -- each one's vendor was read, and there is none.
  pub data Passes (pci : Pci) : PciDeviceIter → P.State → PciDeviceIter → P.State → Type 0 where
    here : {it : PciDeviceIter} {s : P.State} → Passes pci it s it s
    absent :
        {it it' : PciDeviceIter} {s s1 s' : P.State} (device_vendor : ℕ)
        → it.finished_iterating ≡ false
        → config_read P pci (address_of it) 0 s ≡ some (s1, device_vendor)
        → vendor device_vendor ≡ 0xffff
        → Passes pci (increment_iter it) s1 it' s'
        → Passes pci it s it' s'

  -- What a call of `next` from `it` gives. The end: every function that was left was read and is not
  -- there. Or a device: every function before it was read and is not there, its own vendor and then
  -- the type of its header were read, the device is what the type says, at the address of that
  -- function, the address is handed out, and the iterator stands right behind it.
  abbrev pub IsGiven : PciDeviceIter → Pci → P.State → Next P → Type 0
  IsGiven it pci s (no_more after) =
      (end : PciDeviceIter) × Passes pci it s end after × (end.finished_iterating ≡ true)
  IsGiven it pci s (item it' pci' after device) =
      (at : PciDeviceIter) × (s1 : P.State) × (s2 : P.State) × (device_vendor : ℕ) × (header : ℕ)
      × Passes pci it s at s1
      × (at.finished_iterating ≡ false)
      × (config_read P pci (address_of at) 0 s1 ≡ some (s2, device_vendor))
      × (vendor device_vendor ≢ 0xffff)
      × (read_register P pci (address_of at) 3 s2 ≡ some (after, header))
      × IsDevice (address_of at) (get_bits 32 16 8 header) device
      × (position it ≤ index (address_of at))
      × (position it' ≡ index (address_of at) + 1)
      × IsWithin it'
      × (pci' ≡ record pci { allocated_devs = pci.allocated_devs ++ (address_of at ∷ []) })
      × AreBefore (position it') pci'.allocated_devs
  IsGiven it pci s out_of_turns = ⊥

  -- What a call of `next` gives, if it does not panic.
  abbrev Gives : ℕ → PciDeviceIter → Pci → P.State → Type 0
  unfolding next
  Gives turns it pci s = (out : Next P) × (next P turns it pci s ≡ some out) × IsGiven it pci s out

  skips :
      (it : PciDeviceIter) (pci : Pci) (s s1 : P.State) (device_vendor : ℕ) (out : Next P)
      → position it ≤ position (increment_iter it)
      → it.finished_iterating ≡ false
      → config_read P pci (address_of it) 0 s ≡ some (s1, device_vendor)
      → vendor device_vendor ≡ 0xffff
      → IsGiven (increment_iter it) pci s1 out
      → IsGiven it pci s out
  skips it pci s s1 n (no_more after) h on read none_there (end, passed, over) =
      (end, absent n on read none_there passed, over)
  skips it pci s s1 n (item it'' pci'' after device) h on read none_there
        (at, t1, t2, m, header, passed, k0, k1, k2, k3, k4, from, k5, k6, k7, k8) =
      (
        at,
        t1,
        t2,
        m,
        header,
        absent n on read none_there passed,
        k0,
        k1,
        k2,
        k3,
        k4,
        omega arith,
        k5,
        k6,
        k7,
        k8,
      )
  skips it pci s s1 n out_of_turns h on read none_there k = k

  next-done :
      (turns : ℕ) (it : PciDeviceIter) (pci : Pci) (s : P.State)
      → it.finished_iterating ≡ true
      → next P (suc turns) it pci s ≡ some (no_more s)
  unfolding next
  next-done turns it pci s done = rw done refl

  next-on :
      (turns : ℕ) (it : PciDeviceIter) (pci : Pci) (s : P.State)
      → it.finished_iterating ≡ false
      → next P (suc turns) it pci s ≡ (
          config_read P pci (address_of it) 0 s >>= λ (s1, device_vendor).
          if u16 (get_bits 32 0 16 device_vendor) == 0xffff
          then next P turns (increment_iter it) pci s1
          else (upgrade P (address_of it) pci s1 >>= λ (pci1, s2, device).
              some (item (increment_iter it) pci1 s2 device)))
  unfolding next
  next-on turns it pci s on = rw on refl

  next-turn :
      (turns : ℕ) (it : PciDeviceIter) (pci : Pci) (s : P.State)
      → it.finished_iterating ≡ false
      → IsWithin it
      → pci.pci_io ≡ pci_ports
      → AreBefore (position it) pci.allocated_devs
      → ((after : P.State) → Gives turns (increment_iter it) pci after)
      → Gives (suc turns) it pci s
  unfolding Gives
  next-turn turns it pci s on within io before later =
      let (moved, pos) = increment_lem it within on in
      let here_at : position it ≡ index (address_of it) = at_index it on in
      let (read, number) = P.input 4 0xCFC (P.output 4 0xCF8 (address_word (address_of it) 0) s) in
      let given : config_read P pci (address_of it) 0 s ≡ some (read, number) =
        config_read-some P pci (address_of it) 0 s io refl in
      let fresh : AreBefore (index (address_of it)) pci.allocated_devs =
        subst (λ n. AreBefore n pci.allocated_devs) here_at before in
      let (after, header, header_read, e) = upgrade-some (address_of it) pci read io fresh in
      let (out, g, rest) = later read in
      rw (next-on turns it pci s on, given, e)
        (elim (Bool-cases (vendor number == 0xffff)) [
          | inl none_there ↦ rw none_there (
            out,
            g,
            skips it pci s read number out (grows _ _ _ here_at pos) on given
                ((==_iff _ _).0 none_there) rest,
          )
          | inr present ↦ rw present (
            _,
            refl,
            (
              it,
              s,
              read,
              number,
              header,
              here,
              on,
              given,
              (λ same. absurd (ground arith)),
              header_read,
              device_of-IsDevice _ (address_of it),
              same-le _ _ here_at,
              pos,
              moved,
              refl,
              subst (λ n. AreBefore n (pci.allocated_devs ++ (address_of it ∷ []))) (sym pos)
                  (AreBefore-append _ pci.allocated_devs (address_of it)
                    (AreBefore-weaken _ _ pci.allocated_devs (omega arith) fresh) within
                    (omega arith)),
            ),
          )
        ])
    where
      at_index :
          (it : PciDeviceIter) → it.finished_iterating ≡ false → position it ≡ index (address_of it)
      at_index it on = rw on refl

  -- On any hardware, with the two ports of the configuration space, the iterator at an address of the
  -- bus, and every address handed out before its position, a call of `next` does not panic, and its loop ends within as
  -- many turns as there are functions left and one. It gives the end only if every function that was
  -- left was read and is not there. Otherwise it gives the first function that is there, with its own
  -- address and the type that its header says, and hands that address out; the iterator then stands
  -- right behind it, and again behind all that was handed out.
  pub next-IsGiven :
      (turns : ℕ) (it : PciDeviceIter) (pci : Pci) (s : P.State)
      → IsWithin it
      → pci.pci_io ≡ pci_ports
      → AreBefore (position it) pci.allocated_devs
      → 65536 < position it + turns
      → (out : Next P) × (next P turns it pci s ≡ some out) × IsGiven it pci s out
  unfolding Gives next
  next-IsGiven zero it pci s within io before h = absurd (omega (arith, position-le it within))
  next-IsGiven (suc turns) it pci s within io before h = elim (Bool-cases it.finished_iterating) [
    | inl done ↦ (no_more s, next-done turns it pci s done, (it, here, done))
    | inr on ↦
        let (moved, pos) = increment_lem it within on in
        let here_at : position it ≡ index (address_of it) = rw on refl in
        next-turn turns it pci s on within io before λ after.
          next-IsGiven turns (increment_iter it) pci after moved io
            (AreBefore-weaken _ _ pci.allocated_devs (grows _ _ _ here_at pos) before)
            (fewer _ _ _ turns here_at pos h)
  ]
    where
      fewer : (p q n t : ℕ) → p ≡ n → q ≡ n + 1 → 65536 < p + suc t → 65536 < q + t
      fewer p q n t h k l = omega arith
