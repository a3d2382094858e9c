-- ===== src/LockFreeQueue/Pop.antt =====
-- `Receiver::pop` of src/util/lock_free_queue.rs, with no sender between its accesses.
use stream_os.Base.{
  ℕ, suc, ◌+◌, ◌-◌, ◌≤◌, ◌≡◌, refl, ap₂, sym, lt→ltb, ◌∙◌, arith, List, [], ◌∷◌, Option, none, some,
  true, false, ◌==◌, ltb, if◌then◌else◌, Bool-cases, inl, inr, length,
}
use stream_os.LockFreeQueue.{wrapping_increment, update, Storage, Popped, release, pop}
use stream_os.LockFreeQueue.Index.{
  offset, end_of, behind, wrapping_increment-lt, behind_lt, end-behind_full, end-behind_more,
  offset-behind, offset_self, end_full, end_not_full, end-ne-head, get_elem?-none,
}
use stream_os.LockFreeQueue.Holds.{Holds}

module _ {T : Type 0} where
  pub pop-empty : (s : Storage T) (n : ℕ) → Holds s n [] → pop T s ≡ some (s, Popped.empty)
  unfolding pop
  pop-empty s n h = ground (arith, h.tail_eq, h.head_lt)

  -- The storage after a pop, where `end` is the end of what is left.
  abbrev pub taken : Storage T → ℕ → ℕ → Storage T
  taken s next end = record s {
    elements = update s.elements s.head none;
    valid = update s.valid s.head false;
    head = next;
    tail = end;
    reserved = end;
  }

  pub taken-Holds :
      (s : Storage T) (n : ℕ) (v : T) (q : List T)
      → Holds s n (v ∷ q)
      → Holds (taken s (behind n s.head) (end_of n (behind n s.head) (length q))) n q
  taken-Holds s n v q h = record {
    size_eq = h.size_eq;
    fits = h.fits;
    head_lt = behind_lt n s.head h.head_lt;
    length_le = omega (arith, h.length_le);
    tail_eq = refl;
    reserved_eq = refl;
    held = λ i b. elim (Bool-cases (i == s.head)) [
      | inl at_head ↦
          rw (at_head, (offset-behind n s.head i h.head_lt b).0 at_head)
            (sym (get_elem?-none q (n - 1) (omega (arith, h.length_le))))
      | inr behind ↦ rw (behind, h.held i b, (offset-behind n s.head i h.head_lt b).1 behind)
    ];
    marked = λ i b. elim (Bool-cases (i == s.head)) [
      | inl at_head ↦
          rw (at_head, (offset-behind n s.head i h.head_lt b).0 at_head)
            (past (length q) (omega (arith, h.length_le)))
      | inr behind ↦
          rw (behind, h.marked i b, (offset-behind n s.head i h.head_lt b).1 behind)
            (both (offset n (if s.head + 1 == n then 0 else s.head + 1) i) (length q))
    ];
  }
    where
      past : (k : ℕ) → k ≤ n - 1 → false ≡ ltb (n - 1) k
      past k h = ground arith

      both : (a b : ℕ) → ltb (suc a) (suc b) ≡ ltb a b
      both a b = ground arith

  -- The first element is popped, and the storage holds those behind it.
  pub pop-taken :
      (s : Storage T) (n : ℕ) (v : T) (q : List T)
      → Holds s n (v ∷ q)
      → pop T s
        ≡ some (
          taken s (behind n s.head) (end_of n (behind n s.head) (length q)),
          Popped.popped (some v),
        )
  unfolding pop release
  pop-taken s n v q h = elim (Bool-cases (suc (length q) == n)) [
    | inl full ↦
        rw (there, in_range, tail_is full, reserved_is full, next)
          (ap₂ result (end-behind_full n s.head (length q) h.head_lt full) first)
    | inr more ↦
        rw (there, in_range, tail_is_not more, next, same_end)
          (ap₂ result (h.tail_eq ∙ moved more) first)
  ]
    where
      result : ℕ → Option T → Option (Storage T × Popped T)
      result end value = some (taken s (behind n s.head) end, Popped.popped value)

      moved :
          (suc (length q) == n) ≡ false
          → end_of n s.head (suc (length q)) ≡ end_of n (behind n s.head) (length q)
      moved more = end-behind_more n s.head (length q) h.head_lt h.length_le more

      same_end : s.reserved ≡ s.tail
      same_end = h.reserved_eq ∙ sym h.tail_eq

      there : (s.head == s.tail) ≡ false
      there = rw h.tail_eq (end-ne-head n s.head (length q) h.head_lt h.length_le)

      in_range : ltb s.head s.num_elems ≡ true
      in_range = rw h.size_eq (lt→ltb _ _ h.head_lt)

      tail_is : (suc (length q) == n) ≡ true → (s.tail == s.num_elems) ≡ true
      tail_is full = rw (h.tail_eq, h.size_eq) (end_full n s.head (length q) full)

      reserved_is : (suc (length q) == n) ≡ true → (s.reserved == s.num_elems) ≡ true
      reserved_is full = rw (h.reserved_eq, h.size_eq) (end_full n s.head (length q) full)

      tail_is_not : (suc (length q) == n) ≡ false → (s.tail == s.num_elems) ≡ false
      tail_is_not more =
          rw (h.tail_eq, h.size_eq) (end_not_full n s.head (length q) h.head_lt h.length_le more)

      next : wrapping_increment s.head s.num_elems ≡ behind n s.head
      next = rw h.size_eq (wrapping_increment-lt s.head n h.head_lt h.fits)

      first : s.elements s.head ≡ some v
      first = h.held s.head h.head_lt ∙ rw (offset_self n s.head)

  pub pop-next :
      (s : Storage T) (n : ℕ) (v : T) (q : List T)
      → Holds s n (v ∷ q)
      → (t : Storage T) × (pop T s ≡ some (t, Popped.popped (some v))) × Holds t n q
  pop-next s n v q h = (
    taken s (behind n s.head) (end_of n (behind n s.head) (length q)),
    pop-taken s n v q h,
    taken-Holds s n v q h,
  )
