-- ===== src/Multiboot2/Laws.antt =====
-- The loops over the tags of src/multiboot2.rs end, with the first tag that they look for.
use stream_os.Base.{
  ℕ, zero, suc, ◌+◌, ◌*◌, ◌/◌, ◌≡◌, ◌≢◌, ◌<◌, ◌^◌, inl, inr, refl, ◌∙◌, arith, List, [], ◌∷◌,
  Option, none, some, Bool, true, false, ◌==◌, ◌||◌, ◌>>=◌, usize, length, Bool-cases, Option-cases,
}
use stream_os.Acpi.{u32_at}
use stream_os.Multiboot2.{Tag, TagIterator, tag_of, padded_size, give, next_tag, stop, find_tag}

-- A tag takes up the next multiple of eight bytes.
abbrev pub round_up : ℕ → ℕ
round_up size = (size + 7) / 8 * 8

-- Tags, each with its type and its size, one behind the other: what follows them is the end or a tag of
-- type 0.
abbrev pub AreTags : (ℕ → ℕ) → ℕ → ℕ → List (ℕ × ℕ) → Type 0
AreTags mem loc end [] = ((loc == end) || (u32_at mem loc == 0)) ≡ true
AreTags mem loc end ((typ, size) ∷ rest) =
    (loc < end)
    × (loc + round_up size + 8 < 2 ^ 32)
    × (typ ≢ 0)
    × (u32_at mem loc ≡ typ)
    × (u32_at mem (loc + 4) ≡ size)
    × AreTags mem (loc + round_up size) end rest

abbrev pub or_later {ℓ} : {A : Type ℓ} → Option A → Option A → Option A
or_later none later = later
or_later (some a) later = some a

-- What a test takes from the first tag that it takes, of those that the iterator gives.
abbrev pub first_taken {ℓ} : {A : Type ℓ} → (Tag → Option A) → ℕ → List (ℕ × ℕ) → Option A
first_taken take loc [] = none
first_taken take loc ((typ, size) ∷ rest) =
    or_later (tag_of typ loc >>= take) (first_taken take (loc + round_up size) rest)

module _ {A : Type 0} (take : Tag → Option A) (mem : ℕ → ℕ) (end : ℕ) where
  abbrev iter_at : ℕ → TagIterator
  iter_at loc = record { loc = loc; end = end }

  -- The step over one tag.
  next_tag-step :
      (loc typ size turns : ℕ) (rest : List (ℕ × ℕ))
      → AreTags mem loc end ((typ, size) ∷ rest)
      → next_tag (suc turns) mem (iter_at loc)
        ≡ give
            (iter_at (loc + round_up size))
            (next_tag turns mem (iter_at (loc + round_up size)))
            (tag_of typ loc)
  unfolding next_tag
  next_tag-step loc typ size turns rest (before, fits, other, typ_eq, size_eq, later) = rw (
    not_end before,
    typ_eq,
    not_last other,
    next_in_range fits,
    size_eq,
    same fits,
    in_range fits,
  )
    where
      not_end : loc < end → (loc == end) ≡ false
      not_end h = ground arith

      not_last : typ ≢ 0 → (typ == 0) ≡ false
      not_last h = ground arith

      next_in_range : loc + round_up size + 8 < 2 ^ 32 → usize (loc + 4) ≡ loc + 4
      next_in_range h = omega arith

      same : loc + round_up size + 8 < 2 ^ 32 → padded_size size ≡ round_up size
      same h = omega arith

      in_range :
          loc + round_up size + 8 < 2 ^ 32 → usize (loc + round_up size) ≡ loc + round_up size
      in_range h = omega arith

  -- Where the iterator is after a step, and what is left of the tags.
  data Next (loc : ℕ) (tags : List (ℕ × ℕ)) (turns : ℕ) : Type 0 where
    at_end :
        (after : TagIterator)
        → next_tag turns mem (iter_at loc) ≡ some (after, none)
        → first_taken take loc tags ≡ none
        → Next loc tags turns
    at_tag :
        (at : ℕ) (tag : Tag) (rest : List (ℕ × ℕ))
        → next_tag turns mem (iter_at loc) ≡ some (iter_at at, some tag)
        → AreTags mem at end rest
        → length rest < length tags
        → first_taken take loc tags ≡ or_later (take tag) (first_taken take at rest)
        → Next loc tags turns

  next_tag-Next :
      (tags : List (ℕ × ℕ)) (loc turns : ℕ)
      → AreTags mem loc end tags
      → length tags < turns
      → Next loc tags turns
  next_tag-Next tags loc zero h l = absurd (omega arith)
  next_tag-Next [] loc (suc turns) h l = elim (Bool-cases (loc == end)) [
    | inl e ↦ at_end (iter_at loc) (unfold next_tag in rw e) refl
    | inr more ↦
        at_end
          (record { loc = usize (loc + padded_size (u32_at mem (usize (loc + 4)))); end = end })
          (unfold next_tag in rw (more, last (u32_at mem loc == 0) (loc == end) h more)) refl
  ]
    where
      last : (a b : Bool) → (b || a) ≡ true → b ≡ false → a ≡ true
      last a b h k = ground arith
  next_tag-Next ((typ, size) ∷ rest) loc (suc turns) h l = elim (Option-cases (tag_of typ loc)) [
    | inl unknown ↦
        skipped unknown (next_tag-Next rest (loc + round_up size) turns h.5 (omega arith))
    | inr (tag, known) ↦
        at_tag (loc + round_up size) tag rest
          (next_tag-step loc typ size turns rest h ∙ rw known refl) h.5 (omega arith)
          (rw known refl)
  ]
    where
      skipped :
          tag_of typ loc ≡ none
          → Next (loc + round_up size) rest turns
          → Next loc ((typ, size) ∷ rest) (suc turns)
      skipped unknown (at_end after ran taken) =
          at_end after (next_tag-step loc typ size turns rest h ∙ rw (unknown, ran) refl)
            (rw unknown taken)
      skipped unknown (at_tag at tag left ran are fewer taken) =
          at_tag at tag left (next_tag-step loc typ size turns rest h ∙ rw (unknown, ran) refl) are
            (omega arith) (rw unknown taken)

  -- A search among tags ends, with what the test takes from the first tag that it takes, or with
  -- nothing if it takes none; tags of other types are passed over, and what follows the end is not
  -- seen. One turn more than there are tags is enough for the search, and for each call of the
  -- iterator in it.
  pub find_tag-AreTags :
      (tags : List (ℕ × ℕ)) (loc turns calls : ℕ)
      → AreTags mem loc end tags
      → length tags < turns
      → length tags < calls
      → find_tag turns calls mem (iter_at loc) take ≡ some (first_taken take loc tags)
  unfolding find_tag
  find_tag-AreTags tags loc turns zero h l m = absurd (omega arith)
  find_tag-AreTags tags loc turns (suc calls) h l m =
      go (next_tag-Next tags loc turns h l)
        (λ rest at are fewer. find_tag-AreTags rest at turns calls are fewer)
    where
      stop-or : (o : Option A) (later : Option A) → stop o (some later) ≡ some (or_later o later)
      stop-or none later = refl
      stop-or (some a) later = refl

      go :
          Next loc tags turns
          → ((rest : List (ℕ × ℕ)) (at : ℕ)
              → AreTags mem at end rest
              → length rest < turns
              → length rest < calls
              → find_tag turns calls mem (iter_at at) take ≡ some (first_taken take at rest))
          → find_tag turns (suc calls) mem (iter_at loc) take ≡ some (first_taken take loc tags)
      go (at_end after ran taken) ih = rw (ran, taken)
      go (at_tag at tag rest ran are fewer taken) ih =
          rw (ran, taken, ih rest at are (omega arith) (omega arith))
            (stop-or (take tag) (first_taken take at rest))
