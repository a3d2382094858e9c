-- ===== src/LockFreeQueue/Holds.antt =====
-- What a storage of src/util/lock_free_queue.rs stands for: the list of its elements in the order in
-- which they are popped.
use stream_os.Base.{
  ℕ, ◌-◌, ◌^◌, ◌<◌, ◌≤◌, ◌≡◌, refl, arith, List, [], ◌==◌, ltb, if◌then◌else◌, not, length,
  get_elem?,
}
use stream_os.LockFreeQueue.{Storage, channel, size}
use stream_os.LockFreeQueue.Index.{offset, end_of}

module _ {T : Type 0} where
  -- A storage that holds the elements of a list, none of which is being written.
  pub record Holds (s : Storage T) (n : ℕ) (q : List T) : Type 0 where
    pub size_eq : s.num_elems ≡ n
    pub fits : n < 2 ^ 32
    pub head_lt : s.head < n
    pub length_le : length q ≤ n
    pub tail_eq : s.tail ≡ end_of n s.head (length q)
    pub reserved_eq : s.reserved ≡ end_of n s.head (length q)
    pub held : (i : ℕ) → i < n → s.elements i ≡ get_elem? q (offset n s.head i)
    pub marked : (i : ℕ) → i < n → s.valid i ≡ ltb (offset n s.head i) (length q)

  pub channel-Holds : (n : ℕ) → 0 < n → n < 2 ^ 32 → Holds (channel T n) n []
  unfolding channel
  channel-Holds n h k = record {
    size_eq = refl;
    fits = k;
    head_lt = h;
    length_le = omega arith;
    tail_eq = ground arith;
    reserved_eq = ground arith;
    held = λ i l. refl;
    marked = λ i l. ground arith;
  }

  -- `Receiver::size` is the number of elements.
  size-Holds : (s : Storage T) (n : ℕ) (q : List T) → Holds s n q → size T s ≡ length q
  unfolding size
  size-Holds s n q h = rw (h.tail_eq, h.size_eq) (between n s.head (length q) h.head_lt h.length_le)
    where
      between :
          (n head k : ℕ)
          → head < n
          → k ≤ n
          → (if end_of n head k == n
              then n
              else if not (ltb (end_of n head k) head)
              then end_of n head k - head
              else n - (head - end_of n head k))
            ≡ k
      between n head k h l = ground arith
