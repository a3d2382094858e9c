-- ===== src/AsyncMutex/Laws.antt =====
-- src/util/async_mutex.rs: one holder at most, and a wakeup that is lost.
use stream_os.Base.{ℕ, ◌≡◌, ◌≢◌, refl, arith, Bool, true, false, none, ◌==◌, if◌then◌else◌}
use stream_os.WakerList
use stream_os.WakerList.{WakerListInner, handle, register, drop_handle, Notifies}
use stream_os.AsyncMutex.{TaskAt, Mutex, Step, Steps, here, later, move_to, new, retry}

abbrev pub holds : TaskAt → Bool
holds TaskAt.holding = true
holds other = false

-- What holds of every reachable state.
record Excludes (s : Mutex) : Type 0 where
  counted : (i : ℕ) → holds (s.at i) ≡ true → s.count ≡ 1
  alone : (i j : ℕ) → holds (s.at i) ≡ true → holds (s.at j) ≡ true → i ≡ j

new-Excludes : Excludes new
unfolding new
new-Excludes = record { counted = λ i h. cc; alone = λ i j h k. cc }

-- A task that moves, but does not get the lock.
module _ (s : Mutex) (e : Excludes s) (i : ℕ) (t : TaskAt) (without : holds t ≡ false) where
  move-counted : (j : ℕ) → holds (move_to s.at i t j) ≡ true → s.count ≡ 1
  move-counted j h = ground (arith, e.counted j)

  move-alone :
      (j k : ℕ) → holds (move_to s.at i t j) ≡ true → holds (move_to s.at i t k) ≡ true → j ≡ k
  move-alone j k h l = ground (arith, e.alone j k)

retry-without : (again : Bool) → holds (retry again) ≡ false
retry-without true = refl
retry-without false = refl

Step-Excludes : {s t : Mutex} → Step s t → Excludes s → Excludes t
Step-Excludes {s} (Step.lock i at) e = record {
  counted = move-counted s e i _ refl;
  alone = move-alone s e i _ refl;
}
Step-Excludes {s} (Step.try_lock i at) e = record {
  counted = move-counted s e i _ refl;
  alone = move-alone s e i _ refl;
}
Step-Excludes {s} (Step.take_handle i at) e = record {
  counted = move-counted s e i _ refl;
  alone = move-alone s e i _ refl;
}
Step-Excludes {s} (Step.poll_free i id at free) e = record {
  counted = move-counted s e i _ refl;
  alone = move-alone s e i _ refl;
}
Step-Excludes {s} (Step.poll_held i id at held) e = record {
  counted = move-counted s e i _ refl;
  alone = move-alone s e i _ refl;
}
Step-Excludes {s} (Step.register_waker i id at) e = record {
  counted = move-counted s e i _ refl;
  alone = move-alone s e i _ refl;
}
Step-Excludes {s} (Step.poll_again i id at woken) e = record {
  counted = move-counted s e i _ refl;
  alone = move-alone s e i _ refl;
}
Step-Excludes {s} (Step.end_handle i id at) e = record {
  counted = move-counted s e i _ refl;
  alone = move-alone s e i _ refl;
}
Step-Excludes {s} (Step.load_free i again at free) e = record {
  counted = move-counted s e i _ refl;
  alone = move-alone s e i _ refl;
}
Step-Excludes {s} (Step.load_held i again at held) e = record {
  counted = move-counted s e i _ (retry-without again);
  alone = move-alone s e i _ (retry-without again);
}
Step-Excludes {s} (Step.exchange_wins i again at free) e = record {
  counted = λ j h. refl;
  alone = λ j k h l. ground (arith, e.counted j, e.counted k);
}
Step-Excludes {s} (Step.exchange_fails i again at held) e = record {
  counted = move-counted s e i _ (retry-without again);
  alone = move-alone s e i _ (retry-without again);
}
Step-Excludes {s} (Step.store_free i at) e = record {
  counted = λ j h. ground (arith, e.alone i j);
  alone = move-alone s e i _ refl;
}
Step-Excludes {s} (Step.notify_one i woken at wakes) e = record {
  counted = move-counted s e i _ refl;
  alone = move-alone s e i _ refl;
}

Steps-Excludes : {s t : Mutex} → Steps s t → Excludes s → Excludes t
Steps-Excludes here e = e
Steps-Excludes (later r step) e = Step-Excludes step (Steps-Excludes r e)

-- Whatever the tasks do in whatever order, from a new mutex on, two tasks never have a guard at once,
-- and the counter is 1 while one does.
pub Steps-exclusive :
    {s : Mutex} (i j : ℕ)
    → Steps new s
    → s.at i ≡ TaskAt.holding
    → s.at j ≡ TaskAt.holding
    → (i ≡ j) × (s.count ≡ 1)
Steps-exclusive i j r h k =
    let e = Steps-Excludes r new-Excludes in
    (e.alone i j (rw h refl) (rw k refl), e.counted i (rw h refl))

module _ (i j : ℕ) (apart : i ≢ j) where
  -- `j` holds the lock.
  abbrev pub first : Mutex
  first = record new {
    count = 1;
    at =
        move_to (move_to (move_to new.at j (TaskAt.acquiring false)) j (TaskAt.exchanging false)) j
          TaskAt.holding;
  }

  -- `i` has found it taken.
  abbrev second : Mutex
  second = record first {
    wakeup_list = (handle new.wakeup_list).0;
    at =
        move_to (move_to (move_to first.at i TaskAt.locking) i (TaskAt.polling 0)) i
          (TaskAt.registering 0);
  }

  -- `j` has dropped its guard, and then `i` has registered its waker.
  abbrev third : Mutex
  third = record second {
    count = 0;
    wakeup_list = register 0 i second.wakeup_list;
    at =
        move_to (move_to (move_to second.at j TaskAt.notifying) j TaskAt.outside) i
          (TaskAt.suspended 0);
  }

  pub Steps-first : Steps new first
  unfolding new
  Steps-first =
      later (later (later here (Step.try_lock j refl)) (Step.load_free j false (ground arith) refl))
        (Step.exchange_wins j false (ground arith) refl)

  Steps-second : Steps first second
  unfolding new WakerList.new
  Steps-second =
      later (later (later here (Step.lock i (ground arith))) (Step.take_handle i (ground arith)))
        (Step.poll_held i 0 (ground arith) (omega arith))

  Steps-third : Steps second third
  unfolding new WakerList.new
  Steps-third =
      later
        (later (later here (Step.store_free j (ground arith)))
          (Step.notify_one j none (ground arith) (Notifies.nobody (λ id. refl))))
        (Step.register_waker i 0 (ground arith))

Steps-trans : {s t u : Mutex} → Steps s t → Steps t u → Steps s u
Steps-trans r here = r
Steps-trans r (later q step) = later (Steps-trans r q) step

-- A wakeup can be lost: a task that found the lock taken and has not registered its waker yet is not
-- notified by the guard that is dropped. For any two tasks there are steps from a new mutex after
-- which the lock is free, every other task is outside, and the one task is suspended and not
-- woken.
pub wakeup-lost :
    (i j : ℕ)
    → i ≢ j
    → (s : Mutex) × Steps new s
      × (s.count ≡ 0)
      × ((k : ℕ) → s.at k ≡ (if k == i then TaskAt.suspended 0 else TaskAt.outside))
      × ((k : ℕ) → s.woken k ≡ false)
unfolding new
wakeup-lost i j apart = (
  third i j apart,
  Steps-trans (Steps-trans (Steps-first i j apart) (Steps-second i j apart))
      (Steps-third i j apart),
  refl,
  λ k. ground arith,
  λ k. refl,
)
