-- ===== src/Acpi.antt =====
-- src/acpi.rs: the tables that describe the machine, read from memory byte by byte. A table is its
-- address.
use stream_os.Base.{
  ℕ, zero, suc, ◌+◌, ◌*◌, ◌/◌, ◌^◌, ◌<◌, ◌≤◌, ◌≡◌, refl, ap, arith, List, [], ◌∷◌, Option, none,
  some, Bool, true, false, ◌&&◌, if◌then◌else◌, ◌==◌, ltb, leb, u8, usize, sub_u32, Bool-cases, inl,
  inr, length,
}

-- Little-endian numbers of four bytes.
abbrev pub u32_at : (ℕ → ℕ) → ℕ → ℕ
u32_at mem at =
    mem (usize (at + 3)) * 16777216
    + mem (usize (at + 2)) * 65536
    + mem (usize (at + 1)) * 256
    + mem at

-- The sizes of `Rsdp`, `AcpiSdtHeader` and `Madt`, and where their fields stand.
abbrev rsdp_size : ℕ
rsdp_size = 20

abbrev sdt_header_size : ℕ
sdt_header_size = 36

abbrev madt_size : ℕ
madt_size = 44

unfoldable sum_bytes : (ℕ → ℕ) → ℕ → ℕ → ℕ → ℕ
sum_bytes mem p zero acc = acc
sum_bytes mem p (suc n) acc = sum_bytes mem (usize (p + 1)) n (u8 (acc + mem p))

unfoldable validate_checksum : (ℕ → ℕ) → ℕ → Bool
validate_checksum mem rsdp = sum_bytes mem rsdp rsdp_size 0 == 0

unfoldable rsdt : (ℕ → ℕ) → ℕ → ℕ
rsdt mem rsdp = u32_at mem (usize (rsdp + 16))

-- `MadtEntry`; there is one kind, the local APIC.
pub record MadtEntry : Type 0 where
  pub acpi_id : ℕ
  pub apic_id : ℕ
  pub flags : ℕ

pub record MadtEntryIter : Type 0 where
  pub it : ℕ
  pub end : ℕ

abbrev pub entry_at : (ℕ → ℕ) → ℕ → MadtEntry
entry_at mem it = record {
  acpi_id = mem (usize (it + 2));
  apic_id = mem (usize (it + 3));
  flags = u32_at mem (usize (it + 4));
}

unfoldable pub next_entry : (ℕ → ℕ) → MadtEntryIter → MadtEntryIter × Option MadtEntry
next_entry mem iter =
    let record_type = mem iter.it in
    let record_length = mem (usize (iter.it + 1)) in
    if leb iter.end iter.it then (iter, none) else (
      record iter { it = usize (iter.it + record_length) },
      if record_type == 0 then some (entry_at mem iter.it) else none,
    )

-- `Madt::entries`.
unfoldable entries : (ℕ → ℕ) → ℕ → MadtEntryIter
entries mem madt =
    let it = usize (madt + madt_size) in
    let entry_length = sub_u32 (u32_at mem (usize (madt + 4))) madt_size in
    record { it = it; end = usize (it + entry_length) }

unfoldable local_apic_addr : (ℕ → ℕ) → ℕ → ℕ
local_apic_addr mem madt = u32_at mem (usize (madt + 36))

-- `AcpiSdtHeader::upgrade`: whether a table is the one with signature "APIC".
unfoldable is_madt : (ℕ → ℕ) → ℕ → Bool
is_madt mem header =
    mem header == 0x41
    && mem (usize (header + 1)) == 0x50
    && mem (usize (header + 2)) == 0x49
    && mem (usize (header + 3)) == 0x43

record RsdtIterator : Type 0 where
  pointer : ℕ
  num_items : ℕ
  idx : ℕ

unfoldable next_table : (ℕ → ℕ) → RsdtIterator → RsdtIterator × Option ℕ
next_table mem iter = if iter.idx == iter.num_items then (iter, none) else (
  record iter { idx = usize (iter.idx + 1) },
  some (u32_at mem (usize (iter.pointer + 4 * iter.idx))),
)

-- `Rsdt::iter`.
unfoldable tables : (ℕ → ℕ) → ℕ → RsdtIterator
tables mem rsdt_addr = record {
  pointer = usize (rsdt_addr + sdt_header_size);
  num_items = sub_u32 (u32_at mem (usize (rsdt_addr + 4))) sdt_header_size / 4;
  idx = 0;
}

-- A loop over an iterator, which ends at its first `none`; `none` if it makes more calls than given.
abbrev pub cons_if {ℓ} : {A : Type ℓ} → Option A → Option (List A) → Option (List A)
cons_if none later = some []
cons_if (some a) none = none
cons_if (some a) (some rest) = some (a ∷ rest)

unfoldable pub collect_entries : ℕ → (ℕ → ℕ) → MadtEntryIter → Option (List MadtEntry)
collect_entries zero mem iter = none
collect_entries (suc calls) mem iter =
    let (after, entry) = next_entry mem iter in cons_if entry (collect_entries calls mem after)

unfoldable collect_tables : ℕ → (ℕ → ℕ) → RsdtIterator → Option (List ℕ)
collect_tables zero mem iter = none
collect_tables (suc calls) mem iter =
    let (after, table) = next_table mem iter in cons_if table (collect_tables calls mem after)

-- The pointers at `n` indices from `idx` on.
abbrev pointers : (ℕ → ℕ) → ℕ → ℕ → ℕ → List ℕ
pointers mem pointer idx zero = []
pointers mem pointer idx (suc n) =
    u32_at mem (usize (pointer + 4 * idx)) ∷ pointers mem pointer (idx + 1) n

-- The loop over the tables of an RSDT ends in one call more than there are pointers left, and gives
-- exactly these pointers in order.
collect_tables-pointers :
    (mem : ℕ → ℕ) (pointer idx n num_items calls : ℕ)
    → idx + n ≡ num_items
    → num_items < 2 ^ 32
    → n < calls
    → collect_tables calls mem (record { pointer = pointer; num_items = num_items; idx = idx })
      ≡ some (pointers mem pointer idx n)
unfolding collect_tables next_table
collect_tables-pointers mem pointer idx n num_items zero e h k = absurd (omega arith)
collect_tables-pointers mem pointer idx zero num_items (suc calls) e h k = rw (at_end e) refl
  where
    at_end : idx + 0 ≡ num_items → (idx == num_items) ≡ true
    at_end e = ground arith
collect_tables-pointers mem pointer idx (suc n) num_items (suc calls) e h k =
    rw
      (
        not_end e,
        in_range,
        collect_tables-pointers mem pointer (idx + 1) n num_items calls (omega arith) h
            (omega arith),
      )
      refl
  where
    not_end : idx + suc n ≡ num_items → (idx == num_items) ≡ false
    not_end e = ground arith

    in_range : usize (idx + 1) ≡ idx + 1
    in_range = omega arith

-- Records of local APICs, one behind the other, each as long as its second byte says, and where they
-- end.
abbrev pub AreLocal : (ℕ → ℕ) → ℕ → List MadtEntry → ℕ → Type 0
AreLocal mem it [] last = it ≡ last
AreLocal mem it (entry ∷ rest) last =
    (mem it ≡ 0)
    × (it < last)
    × (entry_at mem it ≡ entry)
    × (it + mem (it + 1) < 2 ^ 32)
    × AreLocal mem (it + mem (it + 1)) rest last

-- The records of local APICs at the start of a table are given in order. The loop then ends, whether
-- the table ends there or goes on with a record of another kind: what follows such a record is never
-- seen. It ends in one call more than there are such records.
pub collect_entries-AreLocal :
    (mem : ℕ → ℕ) (local : List MadtEntry) (it last end calls : ℕ)
    → AreLocal mem it local last
    → last ≤ end
    → end < 2 ^ 32
    → ((mem last == 0) && ltb last end) ≡ false
    → length local < calls
    → collect_entries calls mem (record { it = it; end = end }) ≡ some local
unfolding collect_entries next_entry
collect_entries-AreLocal mem local it last end zero laid h k stops l = absurd (omega arith)
collect_entries-AreLocal mem [] it last end (suc calls) laid h k stops l =
    rw laid (elim (Bool-cases (leb end last)) [
      | inl at_end ↦ rw at_end refl
      | inr more ↦ rw (more, other_kind (mem last) stops more) refl
    ])
  where
    other_kind :
        (kind : ℕ)
        → ((kind == 0) && ltb last end) ≡ false
        → leb end last ≡ false
        → (kind == 0) ≡ false
    other_kind kind stops more = ground arith
collect_entries-AreLocal mem (entry ∷ local) it last end (suc calls) laid h k stops l =
    rw
      (
        before it laid.1 h,
        laid.0,
        in_range it laid.1 h k,
        fits (it + mem (it + 1)) laid.3,
        collect_entries-AreLocal mem local (it + mem (it + 1)) last end calls laid.4 h k stops
            (omega arith),
      )
      (ap (λ e. some (e ∷ local)) laid.2)
  where
    before : (it : ℕ) → it < last → last ≤ end → leb end it ≡ false
    before it a b = ground arith

    in_range : (it : ℕ) → it < last → last ≤ end → end < 2 ^ 32 → usize (it + 1) ≡ it + 1
    in_range it a b c = omega arith

    fits : (n : ℕ) → n < 2 ^ 32 → usize n ≡ n
    fits n h = omega arith
