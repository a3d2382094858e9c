-- ===== src/Tests/Queues.antt =====
-- The lock-free queue.
use stream_os.Base.{ℕ, ◌≡◌, refl, arith, List, [], ◌∷◌, Option, none, some, true, false, ◌>>=◌}
use stream_os.LockFreeQueue.{
  Storage, channel, SenderAt, Popped, step, steps, pop, release, next_or_full, wrapping_increment,
}
use stream_os.LockFreeQueue.Index.{end_of}
use stream_os.LockFreeQueue.Holds.{Holds, channel-Holds}
use stream_os.LockFreeQueue.Push.{pushed, pushed-Holds}
use stream_os.LockFreeQueue.Laws.{
  Call, pushes, pops, accepted, refused, received, run, run-run_queue, stale_head-refused,
}

-- The test `full_then_not_full` of the source.
abbrev calls : List (Call ℕ)
calls = pushes 1 ∷ pushes 2 ∷ pushes 3 ∷ pushes 4 ∷ pops ∷ pushes 4 ∷ pops ∷ []

run-run_queue_example :
    (t : Storage ℕ) × (run ℕ calls (channel ℕ 3)
      ≡ some (
        t,
        accepted
            ∷ accepted
            ∷ accepted
            ∷ refused
            ∷ received (Popped.popped (some 1))
            ∷ accepted
            ∷ received (Popped.popped (some 2))
            ∷ [],
      ))
    × Holds t 3 (3 ∷ 4 ∷ [])
run-run_queue_example = run-run_queue ℕ 3 calls (omega arith) (omega arith)

-- Two slots, one of which holds 5.
abbrev one_of_two : Storage ℕ
one_of_two = pushed (channel ℕ 2) 5 (end_of 2 (channel ℕ 2).head 1)

one_of_two-Holds : Holds one_of_two 2 (5 ∷ [])
one_of_two-Holds =
    pushed-Holds (channel ℕ 2) 2 [] 5 (channel-Holds 2 (omega arith) (omega arith)) (omega arith)

stale_head-refused_example :
    (t : Storage ℕ) × (u : Storage ℕ) × (steps ℕ 1 6 one_of_two SenderAt.load_head
      ≡ some (one_of_two, SenderAt.load_reserved one_of_two.head))
    × (pop ℕ one_of_two ≡ some (t, Popped.popped (some 5)))
    × Holds t 2 []
    × (steps ℕ 9 6 t (SenderAt.load_reserved one_of_two.head) ≡ some (u, SenderAt.returned true))
    × (steps ℕ 10 7 u SenderAt.load_head ≡ some (u, SenderAt.returned false))
stale_head-refused_example =
    stale_head-refused ℕ one_of_two 2 5 6 7 [] one_of_two-Holds (omega arith)

-- After such a push of 6, a pop gives 6, and the next one reads an element that was never written.
abbrev uninitialised : Option (Popped ℕ × Popped ℕ)
uninitialised = steps ℕ 10 5 (channel ℕ 2) SenderAt.load_head >>= λ one. pop ℕ one.0 >>= λ two.
    steps ℕ 9 6 two.0 (SenderAt.load_reserved 0) >>= λ three.
    pop ℕ three.0 >>= λ four. pop ℕ four.0 >>= λ five. some (four.1, five.1)

uninitialised_lem : uninitialised ≡ some (Popped.popped (some 6), Popped.popped none)
unfolding steps step pop release next_or_full wrapping_increment channel
uninitialised_lem = refl
