-- ===== src/Tests/Boot.antt =====
-- The tags of a boot loader.
use stream_os.Base.{ℕ, ◌≡◌, refl, arith, List, [], ◌∷◌, Option, none, some, get_elem?}
use stream_os.Multiboot2.{rsdp_of, find_tag, tag_of}
use stream_os.Multiboot2.Laws.{first_taken, find_tag-AreTags}

-- A tag of 9 bytes that the iterator passes over, the tag that is looked for, and the last tag.
abbrev bytes : List ℕ
bytes =
    1 ∷ 0 ∷ 0 ∷ 0 ∷ 9 ∷ 0 ∷ 0 ∷ 0 ∷ 77 ∷ 0 ∷ 0 ∷ 0 ∷ 0 ∷ 0 ∷ 0 ∷ 0 ∷ 14 ∷ 0 ∷ 0 ∷ 0 ∷ 28 ∷ 0 ∷ 0 ∷ 0
    ∷ []

abbrev value_or_zero : Option ℕ → ℕ
value_or_zero none = 0
value_or_zero (some byte) = byte

abbrev memory : ℕ → ℕ
memory at = value_or_zero (get_elem? bytes at)

find_tag-AreTags_example :
    find_tag 3 3 memory (record { loc = 0; end = 56 }) rsdp_of
    ≡ some (first_taken rsdp_of 0 ((1, 9) ∷ (14, 28) ∷ []))
find_tag-AreTags_example =
    find_tag-AreTags rsdp_of memory 56 ((1, 9) ∷ (14, 28) ∷ []) 0 3 3
      (
        omega arith,
        omega arith,
        omega arith,
        refl,
        refl,
        (omega arith, omega arith, omega arith, refl, refl, refl),
      )
      (omega arith) (omega arith)

found : first_taken rsdp_of 0 ((1, 9) ∷ (14, 28) ∷ []) ≡ some 24
unfolding tag_of
found = refl
