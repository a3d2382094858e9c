-- ===== src/Tests/Locks.antt =====
-- The spin lock and the mutex of tasks.
use stream_os.Base.{ℕ, ◌≡◌, refl, arith, false, ◌==◌, if◌then◌else◌}
use stream_os.SpinLock
use stream_os.SpinLock.{ThreadAt, Reach, Step, Reach-exclusive}
use stream_os.AsyncMutex
use stream_os.AsyncMutex.{TaskAt, Mutex, Steps}
use stream_os.AsyncMutex.Laws.{Steps-exclusive, wakeup-lost, first, Steps-first}

-- Thread 4 holds the lock, and thread 7 spins.
abbrev one_spins : SpinLock.SpinLock
one_spins = record {
  available = false;
  at =
      SpinLock.move_to
        (SpinLock.move_to
          (SpinLock.move_to (SpinLock.move_to (λ i. ThreadAt.outside) 4 ThreadAt.spinning) 7
            ThreadAt.spinning)
          4 ThreadAt.asserting)
        4 ThreadAt.holding;
}

one_spins-Reach : Reach one_spins
unfolding SpinLock.new
one_spins-Reach =
    Reach.later
      (Reach.later
        (Reach.later (Reach.later (Reach.later Reach.start (Step.lock 4 refl)) (Step.lock 7 refl))
          (Step.exchange_wins 4 refl refl))
        (Step.exchange_fails 7 refl refl))
      (Step.assert_holds 4 refl refl)

Reach-exclusive_example : (◌≡◌ {A = ℕ} 4 4) × (one_spins.available ≡ false)
Reach-exclusive_example = Reach-exclusive 4 4 one_spins-Reach refl refl

Steps-exclusive_example : (◌≡◌ {A = ℕ} 5 5) × ((first 3 5 (omega arith)).count ≡ 1)
Steps-exclusive_example = Steps-exclusive 5 5 (Steps-first 3 5 (omega arith)) refl refl

wakeup-lost_example :
    (s : Mutex) × Steps AsyncMutex.new s
    × (s.count ≡ 0)
    × ((k : ℕ) → s.at k ≡ (if k == 3 then TaskAt.suspended 0 else TaskAt.outside))
    × ((k : ℕ) → s.woken k ≡ false)
wakeup-lost_example = wakeup-lost 3 5 (omega arith)
