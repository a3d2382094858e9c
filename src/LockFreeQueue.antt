-- ===== src/LockFreeQueue.antt =====
-- src/util/lock_free_queue.rs: a bounded queue for many senders and one receiver. A sender is a
-- machine that makes one access to shared memory in each step; a `pop` is a function. On x86 a weak
-- compare-exchange fails only if the value differs.
use stream_os.Base.{
  ℕ, zero, suc, ◌+◌, ◌%◌, ◌-◌, ◌≡◌, List, [], ◌∷◌, Option, none, some, Bool, true, false, ◌==◌, ltb,
  if◌then◌else◌, ◌>>=◌, usize, not,
}
pub mod Index
pub mod Holds
pub mod Push
pub mod Pop
pub mod Laws

unfoldable pub wrapping_increment : ℕ → ℕ → ℕ
wrapping_increment i size = usize (i + 1) % size

-- The index after `i`, where `size` says that the buffer is full.
unfoldable pub next_or_full : ℕ → ℕ → ℕ → ℕ
next_or_full i size head =
    let next = wrapping_increment i size in if next == head then size else next

abbrev pub update {ℓ} : {A : Type ℓ} → (ℕ → A) → ℕ → A → ℕ → A
update f i v j = if j == i then v else f j

module _ (T : Type 0) where
  -- An element that is not initialised is `none`.
  pub record Storage : Type 0 where
    pub num_elems : ℕ
    pub elements : ℕ → Option T
    pub valid : ℕ → Bool
    pub head : ℕ
    pub tail : ℕ
    pub reserved : ℕ

  unfoldable pub channel : ℕ → Storage
  channel num_elems = record {
    num_elems = num_elems;
    elements = λ i. none;
    valid = λ i. false;
    head = 0;
    tail = 0;
    reserved = 0;
  }

  -- Where `Sender::push` stands, by the access that comes next, with its local variables.
  pub data SenderAt : Type 0 where
    load_head : SenderAt
    load_reserved : ℕ → SenderAt
    exchange_reserved : ℕ → ℕ → SenderAt
    write_element : ℕ → ℕ → SenderAt
    store_valid : ℕ → ℕ → SenderAt
    load_tail : ℕ → SenderAt
    load_valid : ℕ → ℕ → SenderAt
    exchange_tail : ℕ → ℕ → SenderAt
    returned : Bool → SenderAt

  -- One step of a push of `elem`; `none` is a panic.
  unfoldable pub step : T → Storage → SenderAt → Option (Storage × SenderAt)
  step elem s load_head = some (s, load_reserved s.head)
  step elem s (load_reserved head) =
      if s.reserved == s.num_elems
      then some (s, returned false)
      else some (s, exchange_reserved head s.reserved)
  step elem s (exchange_reserved head push_idx) =
      if s.reserved == push_idx
      then some (
        record s { reserved = next_or_full push_idx s.num_elems head },
        write_element head push_idx,
      )
      else some (s, load_reserved head)
  step elem s (write_element head push_idx) =
      if ltb push_idx s.num_elems
      then some (
        record s { elements = update s.elements push_idx (some elem) },
        store_valid head push_idx,
      )
      else none
  step elem s (store_valid head push_idx) =
      if ltb push_idx s.num_elems
      then some (record s { valid = update s.valid push_idx true }, load_tail head)
      else none
  step elem s (load_tail head) = some (s, load_valid head s.tail)
  step elem s (load_valid head tail) =
      if tail == s.num_elems
      then some (s, exchange_tail head tail)
      else if ltb tail s.num_elems
      then some (s, if s.valid tail then exchange_tail head tail else returned true)
      else none
  step elem s (exchange_tail head tail) =
      let next_tail = next_or_full tail s.num_elems head in
      some (
        if s.tail == tail then record s { tail = next_tail } else s,
        if next_tail == s.num_elems then returned true else load_tail head,
      )
  step elem s (returned done) = some (s, returned done)

  -- Some steps of one sender, with no other access between them.
  unfoldable pub steps : ℕ → T → Storage → SenderAt → Option (Storage × SenderAt)
  steps zero elem s at = some (s, at)
  steps (suc n) elem s at = step elem s at >>= λ after. steps n elem after.0 after.1

  pub data Popped : Type 0 where
    empty : Popped
    popped : Option T → Popped

  -- The end of a pop, which makes room in a buffer that was full; `head` is the popped index.
  unfoldable pub release : ℕ → Storage → Option Storage
  release head s =
      if s.tail == s.num_elems
      then (if s.reserved == s.num_elems
          then some (record s { tail = head; reserved = head })
          else none)
      else some s

  -- `Receiver::pop`, with no other access between its own; `popped none` reads an element that is
  -- not initialised.
  unfoldable pub pop : Storage → Option (Storage × Popped)
  pop s =
      if s.head == s.tail
      then some (s, empty)
      else if ltb s.head s.num_elems
      then (release s.head (record s {
        elements = update s.elements s.head none;
        valid = update s.valid s.head false;
        head = wrapping_increment s.head s.num_elems;
      })
          >>= λ after. some (after, popped (s.elements s.head)))
      else none

  unfoldable pub size : Storage → ℕ
  size s =
      if s.tail == s.num_elems
      then s.num_elems
      else if not (ltb s.tail s.head)
      then s.tail - s.head
      else s.num_elems - (s.head - s.tail)
