-- ===== src/LockFreeQueue/Laws.antt =====
-- src/util/lock_free_queue.rs against a bounded queue, and where the two differ.
use stream_os.Base.{
  ℕ, suc, ◌+◌, ◌^◌, ◌<◌, ◌≤◌, ◌≡◌, refl, sym, arith, List, [], ◌∷◌, ◌++◌, Option, none, some, true,
  false, ◌==◌, if◌then◌else◌, ◌>>=◌, Bool-cases, inl, inr, length,
}
use stream_os.LockFreeQueue.{next_or_full, Storage, channel, SenderAt, step, steps, Popped, pop}
use stream_os.LockFreeQueue.Index.{end_of, behind, wrapping_increment-lt, end_lt, behind_lt}
use stream_os.LockFreeQueue.Holds.{Holds, channel-Holds}
use stream_os.LockFreeQueue.Push.{pushed, push-room, push-full, push_steps-full}
use stream_os.LockFreeQueue.Pop.{taken, taken-Holds, pop-taken, pop-empty, pop-next}

module _ (T : Type 0) where
  -- Calls that do not overlap, and what they return.
  pub data Call : Type 0 where
    pushes : T → Call
    pops : Call

  pub data Outcome : Type 0 where
    accepted : Outcome
    refused : Outcome
    received : Popped T → Outcome

  abbrev pub outcome_of : SenderAt T → Option Outcome
  outcome_of (SenderAt.returned true) = some accepted
  outcome_of (SenderAt.returned false) = some refused
  outcome_of at = none

  -- One call from start to end; ten steps are enough for a push.
  unfoldable pub call : Call → Storage T → Option (Storage T × Outcome)
  unfolding steps step pop
  call (pushes v) s = steps T 10 v s SenderAt.load_head >>= λ after.
      outcome_of after.1 >>= λ outcome. some (after.0, outcome)
  call pops s = pop T s >>= λ after. some (after.0, received after.1)

  abbrev pub cons_outcome :
      Outcome → Option (Storage T × List Outcome) → Option (Storage T × List Outcome)
  cons_outcome o none = none
  cons_outcome o (some (s, os)) = some (s, o ∷ os)

  unfoldable pub run : List Call → Storage T → Option (Storage T × List Outcome)
  run [] s = some (s, [])
  run (c ∷ cs) s = call c s >>= λ after. cons_outcome after.1 (run cs after.0)

  -- The same of a queue of at most `n` elements.
  abbrev pub call_queue : ℕ → Call → List T → List T × Outcome
  call_queue n (pushes v) q = if length q == n then (q, refused) else (q ++ (v ∷ []), accepted)
  call_queue n pops [] = ([], received Popped.empty)
  call_queue n pops (v ∷ q) = (q, received (Popped.popped (some v)))

  abbrev pub run_queue : ℕ → List Call → List T → List T × List Outcome
  run_queue n [] q = (q, [])
  run_queue n (c ∷ cs) q =
      let (after, o) = call_queue n c q in let (last, os) = run_queue n cs after in (last, o ∷ os)

  call-Holds :
      (n : ℕ) (c : Call) (s : Storage T) (q : List T)
      → Holds s n q
      → (t : Storage T) × (call c s ≡ some (t, (call_queue n c q).1))
        × Holds t n (call_queue n c q).0
  unfolding call
  call-Holds n (pushes v) s q h = elim (Bool-cases (length q == n)) [
    | inl full ↦ rw (full, push-full s n q v h (is_full full)) (s, refl, h)
    | inr room ↦
        let ran = push-room s n q v h (has_room h.length_le room) in
        rw (room, ran.1) (ran.0, refl, ran.2)
  ]
    where
      is_full : (length q == n) ≡ true → length q ≡ n
      is_full e = ground arith

      has_room : length q ≤ n → (length q == n) ≡ false → length q < n
      has_room l e = ground arith
  call-Holds n pops s [] h = rw (pop-empty s n h) (s, refl, h)
  call-Holds n pops s (v ∷ q) h = let ran = pop-next s n v q h in rw ran.1 (ran.0, refl, ran.2)

  run-Holds :
      (n : ℕ) (cs : List Call) (s : Storage T) (q : List T)
      → Holds s n q
      → (t : Storage T) × (run cs s ≡ some (t, (run_queue n cs q).1))
        × Holds t n (run_queue n cs q).0
  unfolding run
  run-Holds n [] s q h = (s, refl, h)
  run-Holds n (c ∷ cs) s q h =
      let one = call-Holds n c s q h in
      let rest = run-Holds n cs one.0 (call_queue n c q).0 one.2 in
      rw (one.1, rest.1) (rest.0, refl, rest.2)

  -- Calls that do not overlap, on a channel with at least one slot and fewer than 2 ^ 32, never
  -- panic, and return what a queue of that many elements returns: a push is refused exactly if the
  -- queue is full, a pop gives the element that was pushed first of those left.
  pub run-run_queue :
      (n : ℕ) (cs : List Call)
      → 0 < n
      → n < 2 ^ 32
      → (t : Storage T) × (run cs (channel T n) ≡ some (t, (run_queue n cs []).1))
        × Holds t n (run_queue n cs []).0
  run-run_queue n cs h k = run-Holds n cs (channel T n) [] (channel-Holds n h k)

-- The slot behind the last free one is the head that a sender read before a pop.
next-stale :
    (n head k : ℕ)
    → head < n
    → suc (suc k) ≡ n
    → n < 2 ^ 32
    → next_or_full (end_of n (behind n head) k) n head ≡ n
unfolding next_or_full
next-stale n head k h e b = ground (arith, wrapping_increment-lt (end_of n (behind n head) k) n)

module _ (T : Type 0) where
  -- A queue with one free slot loses one by a pop between the first access of a push and its
  -- others. The pop gives the first element, the push is accepted, and then the storage is marked
  -- full: the next push is refused although two slots were free before and only one is taken.
  pub stale_head-refused :
      (s : Storage T) (n : ℕ) (x v w : T) (q : List T)
      → Holds s n (x ∷ q)
      → length q + 2 ≡ n
      → (t : Storage T) × (u : Storage T) × (steps T 1 v s SenderAt.load_head
          ≡ some (s, SenderAt.load_reserved s.head))
        × (pop T s ≡ some (t, Popped.popped (some x)))
        × Holds t n q
        × (steps T 9 v t (SenderAt.load_reserved s.head) ≡ some (u, SenderAt.returned true))
        × (steps T 10 w u SenderAt.load_head ≡ some (u, SenderAt.returned false))
  unfolding steps step
  stale_head-refused s n x v w q h e = (
    t,
    pushed t v n,
    refl,
    pop-taken s n x q h,
    taken-Holds s n x q h,
    push_steps-full s.head t v n refl
        (rw h.size_eq
          (end_lt n (behind n s.head) (length q) (behind_lt n s.head h.head_lt) (omega arith)))
        (rw h.size_eq (next-stale n s.head (length q) h.head_lt (omega arith) h.fits))
        (sym h.size_eq),
    rw (full (sym h.size_eq)),
  )
    where
      t : Storage T
      t = taken s (behind n s.head) (end_of n (behind n s.head) (length q))

      full : n ≡ s.num_elems → (n == s.num_elems) ≡ true
      full same = ground arith
