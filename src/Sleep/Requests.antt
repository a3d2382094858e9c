-- ===== src/Sleep/Requests.antt =====
-- src/sleep.rs and src/time.rs: how a sleeping task reaches the service of wakeup times, each access to
-- the lock, the wakers and the clock a step of its own.
use stream_os.Base.{
  ℕ, ◌+◌, ◌≡◌, ◌≤◌, refl, arith, List, [], ◌∷◌, ◌++◌, Bool, true, false, ◌||◌, if◌then◌else◌, ltb,
  usize,
}

-- What requests and the service share: the posted times and their lock, whether the service has
-- stored its waker, whether it waits for the lock, and whether it was woken.
pub record Shared : Type 0 where
  pub posted : List (ℕ × ℕ)
  pub locked : Bool
  pub service_waker : Bool
  pub waits_for_lock : Bool
  pub woken : Bool

-- The steps of `WakeupRequester::register_wakeup_time`, the last one the end of its guard.
unfoldable pub lock_times : Shared → Shared
lock_times s = record s { locked = true }

unfoldable pub push_back : ℕ → ℕ → Shared → Shared
push_back tick waker s = record s { posted = s.posted ++ ((tick, waker) ∷ []) }

unfoldable pub wake_service : Shared → Shared
wake_service s = record s { woken = s.woken || s.service_waker }

unfoldable pub unlock_times : Shared → Shared
unlock_times s = record s { locked = false; woken = s.woken || s.waits_for_lock }

abbrev pub is_empty : List (ℕ × ℕ) → Bool
is_empty [] = true
is_empty (time ∷ times) = false

-- `TimeWaiter::poll`, with whether it is ready. The future of the lock that it polls registers its
-- waker if the lock is taken, and takes it back as it is dropped at the end of the poll.
unfoldable pub poll_times : Shared → Shared × Bool
poll_times s =
    let polled = record s { service_waker = true; woken = false; waits_for_lock = false } in
    (polled, if s.locked then false else if is_empty s.posted then false else true)

not-empty : (times : List (ℕ × ℕ)) (time : ℕ × ℕ) → is_empty (times ++ (time ∷ [])) ≡ false
not-empty [] time = refl
not-empty (t ∷ times) time = refl

-- A service that is polled behind a whole request sees it.
request-seen :
    (tick waker : ℕ) (s : Shared)
    → (poll_times (unlock_times (wake_service (push_back tick waker (lock_times s))))).1 ≡ true
unfolding poll_times unlock_times wake_service push_back lock_times
request-seen tick waker s = rw (not-empty s.posted (tick, waker))

-- A service that is woken by a request, and polled before the request drops its guard, is pending and
-- is not woken by that: the lock is free and a time is posted, but nobody will post it on.
request-lost :
    (tick waker : ℕ) (s : Shared)
    → let polled = poll_times (wake_service (push_back tick waker (lock_times s))) in
      (polled.1 ≡ false)
      × ((unlock_times polled.0).woken ≡ false)
      × ((unlock_times polled.0).locked ≡ false)
      × (is_empty (unlock_times polled.0).posted ≡ false)
unfolding poll_times unlock_times wake_service push_back lock_times
request-lost tick waker s = (refl, refl, refl, not-empty s.posted (tick, waker))

-- `MonotonicTime`, and `SleepFuture::poll` by the tick that it reads.
unfoldable pub increment : ℕ → ℕ × ℕ
increment tick = (usize (tick + 1), usize (tick + 1))

unfoldable pub poll_sleep : ℕ → ℕ → Bool
poll_sleep now end_tick = if ltb now end_tick then false else true

-- A task that is woken at its tick or later is ready, and stays ready as ticks go by.
sleep-ready :
    (now later end_tick : ℕ) → end_tick ≤ now → now ≤ later → poll_sleep later end_tick ≡ true
unfolding poll_sleep
sleep-ready now later end_tick h k = ground arith
