-- ===== src/Pci/Position.antt =====
-- How far an iteration over all functions is, and what was handed out before.
use stream_os.Base.{
  ℕ, ◌+◌, ◌*◌, ◌%◌, ◌<◌, ◌≤◌, ◌≡◌, refl, arith, List, [], ◌∷◌, ◌++◌, false, ◌==◌, if◌then◌else◌, u8,
  Bool-cases, inl, inr,
}
use stream_os.Pci.{PciAddress, PciDeviceIter, increment_iter, address_of, same_address, contains}
use stream_os.Pci.Laws.{IsAddress}

abbrev pub index : PciAddress → ℕ
index a = a.bus * 256 + a.slot * 8 + a.function

-- How far an iteration is: the number of functions that it has passed.
abbrev pub position : PciDeviceIter → ℕ
position it = if it.finished_iterating then 65536 else index (address_of it)

abbrev pub IsWithin : PciDeviceIter → Type 0
IsWithin it = IsAddress (address_of it)

pub increment_lem :
    (it : PciDeviceIter)
    → IsWithin it
    → it.finished_iterating ≡ false
    → IsWithin (increment_iter it) × (position (increment_iter it) ≡ index (address_of it) + 1)
unfolding increment_iter
increment_lem it h e = elim (Bool-cases (u8 (it.function + 1) % 8 == 0)) [
  | inr same_device ↦ rw (same_device, e) ((omega arith, omega arith, ground arith), ground arith)
  | inl next_device ↦ rw next_device (elim (Bool-cases (u8 (it.device_num + 1) % 32 == 0)) [
    | inr same_bus ↦ rw (same_bus, e) ((omega arith, ground arith, ground arith), ground arith)
    | inl next_bus ↦ rw next_bus (elim (Bool-cases (u8 (it.bus_num + 1) == 0)) [
      | inr more ↦ rw (more, e) ((ground arith, ground arith, ground arith), ground arith)
      | inl last ↦ rw last ((ground arith, ground arith, ground arith), ground arith)
    ])
  ])
]

-- The addresses handed out lie before position `n`.
abbrev pub AreBefore : ℕ → List PciAddress → Type 0
AreBefore n [] = Unit {0}
AreBefore n (a ∷ addrs) = IsAddress a × (index a < n) × AreBefore n addrs

pub AreBefore-weaken :
    (n m : ℕ) (addrs : List PciAddress) → n ≤ m → AreBefore n addrs → AreBefore m addrs
AreBefore-weaken n m [] h k = tt
AreBefore-weaken n m (a ∷ addrs) h k = (k.0, omega arith, AreBefore-weaken n m addrs h k.2)

pub AreBefore-append :
    (n : ℕ) (addrs : List PciAddress) (a : PciAddress)
    → AreBefore n addrs
    → IsAddress a
    → index a < n
    → AreBefore n (addrs ++ (a ∷ []))
AreBefore-append n [] a h k l = (k, l, tt)
AreBefore-append n (b ∷ addrs) a h k l = (h.0, h.1, AreBefore-append n addrs a h.2 k l)

differs : (a b : PciAddress) → index b < index a → same_address a b ≡ false
differs a b h = ground arith

pub contains-before :
    (addrs : List PciAddress) (a : PciAddress)
    → AreBefore (index a) addrs
    → contains addrs a ≡ false
unfolding contains
contains-before [] a h = refl
contains-before (b ∷ addrs) a h = rw (differs a b h.1, contains-before addrs a h.2) refl

pub grows : (p q n : ℕ) → p ≡ n → q ≡ n + 1 → p ≤ q
grows p q n h k = omega arith

pub same-le : (p n : ℕ) → p ≡ n → p ≤ n
same-le p n h = omega arith

pub position-le : (it : PciDeviceIter) → IsWithin it → position it ≤ 65536
position-le it h = elim (Bool-cases it.finished_iterating) [
  | inl done ↦ rw done (omega arith)
  | inr on ↦ rw on (omega arith)
]
