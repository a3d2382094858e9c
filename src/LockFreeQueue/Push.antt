-- ===== src/LockFreeQueue/Push.antt =====
-- `Sender::push` of src/util/lock_free_queue.rs, by a sender that works alone.
use stream_os.Base.{
  ℕ, ◌+◌, ◌<◌, ◌≡◌, ◌≢◌, refl, ap, sym, ◌∙◌, arith, List, [], ◌∷◌, ◌++◌, some, true, false, ◌==◌,
  ltb, Bool-cases, inl, inr, length, length-append,
}
use stream_os.LockFreeQueue.{next_or_full, update, Storage, SenderAt, step, steps}
use stream_os.LockFreeQueue.Index.{
  end_of, get_elem?-append, next_or_full-end, end_iff, end_lt, end_last, end_free,
}
use stream_os.LockFreeQueue.Holds.{Holds}

module _ {T : Type 0} where
  -- The storage after a push to the slot that is reserved next, where `after` is the slot behind it.
  abbrev pub pushed : Storage T → T → ℕ → Storage T
  pushed s v after = record s {
    elements = update s.elements s.reserved (some v);
    valid = update s.valid s.reserved true;
    reserved = after;
    tail = after;
  }

  module _ (head : ℕ) (s : Storage T) (v : T) (after : ℕ) (quiet : s.tail ≡ s.reserved)
      (room : s.reserved < s.num_elems)
      (next : next_or_full s.reserved s.num_elems head ≡ after) where
    not_full : (s.reserved == s.num_elems) ≡ false
    not_full = ground arith

    in_range : ltb s.reserved s.num_elems ≡ true
    in_range = ground arith

    same : (s.reserved == s.reserved) ≡ true
    same = ground arith

    pub push_steps-full :
        after ≡ s.num_elems
        → steps T 9 v s (SenderAt.load_reserved head)
          ≡ some (pushed s v after, SenderAt.returned true)
    unfolding steps step
    push_steps-full full = rw (
      not_full,
      same,
      next,
      in_range,
      in_range,
      quiet,
      not_full,
      in_range,
      same,
      same,
      next,
      at_end full,
    )
      where
        at_end : after ≡ s.num_elems → (after == s.num_elems) ≡ true
        at_end e = ground arith

    push_steps-room :
        after < s.num_elems
        → after ≢ s.reserved
        → s.valid after ≡ false
        → steps T 9 v s (SenderAt.load_reserved head)
          ≡ some (pushed s v after, SenderAt.returned true)
    unfolding steps step
    push_steps-room more other unmarked = rw (
      not_full,
      same,
      next,
      in_range,
      in_range,
      quiet,
      not_full,
      in_range,
      same,
      same,
      next,
      inside more,
      inside more,
      below more,
      apart other,
      unmarked,
    )
      where
        inside : after < s.num_elems → (after == s.num_elems) ≡ false
        inside h = ground arith

        below : after < s.num_elems → ltb after s.num_elems ≡ true
        below h = ground arith

        apart : after ≢ s.reserved → (after == s.reserved) ≡ false
        apart h = ground arith

  pub pushed-Holds :
      (s : Storage T) (n : ℕ) (q : List T) (v : T)
      → Holds s n q
      → length q < n
      → Holds (pushed s v (end_of n s.head (length q + 1))) n (q ++ (v ∷ []))
  pushed-Holds s n q v h l = record {
    size_eq = h.size_eq;
    fits = h.fits;
    head_lt = h.head_lt;
    length_le = omega (arith, length-append q (v ∷ []));
    tail_eq = ap (end_of n s.head) long;
    reserved_eq = ap (end_of n s.head) long;
    held = λ i b. rw (
      h.reserved_eq,
      end_iff n s.head (length q) i h.head_lt l b,
      get_elem?-append q v,
      h.held i b,
    );
    marked = λ i b.
        rw
          (
            h.reserved_eq,
            end_iff n s.head (length q) i h.head_lt l b,
            h.marked i b,
            length-append q (v ∷ []),
          )
          (ground arith);
  }
    where
      long : length q + 1 ≡ length (q ++ (v ∷ []))
      long = omega (arith, length-append q (v ∷ []))

  -- A push that no other access interrupts.
  pub push-room :
      (s : Storage T) (n : ℕ) (q : List T) (v : T)
      → Holds s n q
      → length q < n
      → (t : Storage T) × (steps T 10 v s SenderAt.load_head ≡ some (t, SenderAt.returned true))
        × Holds t n (q ++ (v ∷ []))
  unfolding steps step
  push-room s n q v h l = (
    pushed s v after,
    elim (Bool-cases (length q + 1 == n)) [
      | inl last ↦
          push_steps-full s.head s v after quiet room next
            (end_last n s.head (length q) last ∙ sym h.size_eq)
      | inr more ↦
          let free = end_free n s.head (length q) h.head_lt l more in
          push_steps-room s.head s v after quiet room next (rw h.size_eq free.0)
            (rw h.reserved_eq free.1) (h.marked after free.0 ∙ free.2)
    ],
    pushed-Holds s n q v h l,
  )
    where
      after : ℕ
      after = end_of n s.head (length q + 1)

      quiet : s.tail ≡ s.reserved
      quiet = h.tail_eq ∙ sym h.reserved_eq

      room : s.reserved < s.num_elems
      room = rw (h.reserved_eq, h.size_eq) (end_lt n s.head (length q) h.head_lt l)

      next : next_or_full s.reserved s.num_elems s.head ≡ after
      next = rw (h.reserved_eq, h.size_eq) (next_or_full-end n s.head (length q) h.head_lt l h.fits)

  pub push-full :
      (s : Storage T) (n : ℕ) (q : List T) (v : T)
      → Holds s n q
      → length q ≡ n
      → steps T 10 v s SenderAt.load_head ≡ some (s, SenderAt.returned false)
  unfolding steps step
  push-full s n q v h l = rw full refl
    where
      full : (s.reserved == s.num_elems) ≡ true
      full = ground (arith, h.reserved_eq, h.size_eq)
