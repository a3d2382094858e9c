-- ===== src/AsyncMutex.antt =====
-- src/util/async_mutex.rs: a lock that tasks wait for, each access to its counter a step, interleaved
-- in any order. Task `i` takes, holds and drops one guard at a time.
use stream_os.Base.{
  ℕ, ◌+◌, ◌≡◌, ◌≢◌, refl, arith, Bool, true, false, Option, none, some, ◌==◌, if◌then◌else◌,
}
use stream_os.WakerList
use stream_os.WakerList.{WakerListInner, handle, register, drop_handle, Notifies}
pub mod Laws

-- Where a task stands. An acquisition belongs to `lock`, which tries again, or to `try_lock`, which
-- does not.
pub data TaskAt : Type 0 where
  outside : TaskAt
  locking : TaskAt  -- at the head of the loop of `lock`
  polling : ℕ → TaskAt  -- before `MutexLocker::poll` loads the counter
  registering : ℕ → TaskAt  -- before it registers its waker
  suspended : ℕ → TaskAt  -- after `Poll::Pending`
  dropping : ℕ → TaskAt  -- before the end of the handle
  acquiring : Bool → TaskAt  -- before `acquire` loads the counter
  exchanging : Bool → TaskAt  -- before it exchanges the counter
  holding : TaskAt  -- with a `MutexGuard`
  notifying : TaskAt  -- in the end of the guard, behind its store

pub record Mutex : Type 0 where
  pub count : ℕ
  pub wakeup_list : WakerListInner
  pub at : ℕ → TaskAt
  pub woken : ℕ → Bool

unfoldable pub new : Mutex
new = record {
  count = 0;
  wakeup_list = WakerList.new;
  at = λ i. TaskAt.outside;
  woken = λ i. false;
}

abbrev pub move_to : (ℕ → TaskAt) → ℕ → TaskAt → ℕ → TaskAt
move_to at i t j = if j == i then t else at j

-- Where a task goes on if it did not get the lock.
abbrev pub retry : Bool → TaskAt
retry again = if again then TaskAt.locking else TaskAt.outside

abbrev pub wake : Option ℕ → (ℕ → Bool) → ℕ → Bool
wake none woken j = woken j
wake (some i) woken j = if j == i then true else woken j

-- One access of one task, or the executor polling a task that was woken.
pub data Step (s : Mutex) : Mutex → Type 0 where
  lock :
      (i : ℕ) → s.at i ≡ TaskAt.outside → Step s (record s { at = move_to s.at i TaskAt.locking })
  try_lock :
      (i : ℕ)
      → s.at i ≡ TaskAt.outside
      → Step s (record s { at = move_to s.at i (TaskAt.acquiring false) })
  take_handle :
      (i : ℕ)
      → s.at i ≡ TaskAt.locking
      → Step s (record s {
        wakeup_list = (handle s.wakeup_list).0;
        at = move_to s.at i (TaskAt.polling (handle s.wakeup_list).1);
      })
  poll_free :
      (i id : ℕ)
      → s.at i ≡ TaskAt.polling id
      → s.count ≡ 0
      → Step s (record s { at = move_to s.at i (TaskAt.dropping id) })
  poll_held :
      (i id : ℕ)
      → s.at i ≡ TaskAt.polling id
      → s.count ≢ 0
      → Step s (record s { at = move_to s.at i (TaskAt.registering id) })
  register_waker :
      (i id : ℕ)
      → s.at i ≡ TaskAt.registering id
      → Step s (record s {
        wakeup_list = register id i s.wakeup_list;
        at = move_to s.at i (TaskAt.suspended id);
      })
  poll_again :
      (i id : ℕ)
      → s.at i ≡ TaskAt.suspended id
      → s.woken i ≡ true
      → Step s (record s {
        at = move_to s.at i (TaskAt.polling id);
        woken = λ j. if j == i then false else s.woken j;
      })
  end_handle :
      (i id : ℕ)
      → s.at i ≡ TaskAt.dropping id
      → Step s (record s {
        wakeup_list = drop_handle id s.wakeup_list;
        at = move_to s.at i (TaskAt.acquiring true);
      })
  load_free :
      (i : ℕ) (again : Bool)
      → s.at i ≡ TaskAt.acquiring again
      → s.count ≡ 0
      → Step s (record s { at = move_to s.at i (TaskAt.exchanging again) })
  load_held :
      (i : ℕ) (again : Bool)
      → s.at i ≡ TaskAt.acquiring again
      → s.count ≢ 0
      → Step s (record s { at = move_to s.at i (retry again) })
  exchange_wins :
      (i : ℕ) (again : Bool)
      → s.at i ≡ TaskAt.exchanging again
      → s.count ≡ 0
      → Step s (record s { count = 1; at = move_to s.at i TaskAt.holding })
  exchange_fails :
      (i : ℕ) (again : Bool)
      → s.at i ≡ TaskAt.exchanging again
      → s.count ≢ 0
      → Step s (record s { at = move_to s.at i (retry again) })
  store_free :
      (i : ℕ)
      → s.at i ≡ TaskAt.holding
      → Step s (record s { count = 0; at = move_to s.at i TaskAt.notifying })
  notify_one :
      (i : ℕ) (woken : Option ℕ)
      → s.at i ≡ TaskAt.notifying
      → Notifies s.wakeup_list woken
      → Step s (record s { at = move_to s.at i TaskAt.outside; woken = wake woken s.woken })

-- Some steps, one after the other.
pub data Steps (s : Mutex) : Mutex → Type 0 where
  here : Steps s s
  later : {t u : Mutex} → Steps s t → Step t u → Steps s u
