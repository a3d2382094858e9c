-- ===== src/Tests/Acpi.antt =====
-- Tables that describe the machine.
use stream_os.Base.{ℕ, ◌≡◌, refl, arith, List, [], ◌∷◌, some, none, get_elem?, Option}
use stream_os.Acpi.{MadtEntry, collect_entries, collect_entries-AreLocal}

-- A local APIC, then a record of another kind, then a local APIC.
abbrev bytes : List ℕ
bytes = 0 ∷ 8 ∷ 1 ∷ 2 ∷ 1 ∷ 0 ∷ 0 ∷ 0 ∷ 1 ∷ 4 ∷ 0 ∷ 0 ∷ 0 ∷ 8 ∷ 3 ∷ 4 ∷ 1 ∷ 0 ∷ 0 ∷ 0 ∷ []

abbrev value_or_zero : Option ℕ → ℕ
value_or_zero none = 0
value_or_zero (some byte) = byte

abbrev memory : ℕ → ℕ
memory at = value_or_zero (get_elem? bytes at)

abbrev first_apic : MadtEntry
first_apic = record { acpi_id = 1; apic_id = 2; flags = 1 }

collect_entries-AreLocal_example :
    collect_entries 2 memory (record { it = 0; end = 20 }) ≡ some (first_apic ∷ [])
collect_entries-AreLocal_example =
    collect_entries-AreLocal memory (first_apic ∷ []) 0 8 20 2
      (refl, omega arith, refl, omega arith, refl) (omega arith) (omega arith) refl (omega arith)
