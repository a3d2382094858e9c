-- ===== src/WakerList.antt =====
-- src/util/waker_list.rs: the wakers of tasks, each under the id of its handle. Every operation holds
-- the spin lock of the list, and is one step. The hash map is a function from ids, and which of its
-- entries an iterator gives first is left open.
use stream_os.Base.{ℕ, ◌+◌, ◌%◌, ◌^◌, ◌≡◌, Option, none, some, ◌==◌, if◌then◌else◌}

-- A waker is the task that it wakes.
pub record WakerListInner : Type 0 where
  pub id : ℕ
  pub wakers : ℕ → Option ℕ

unfoldable pub new : WakerListInner
new = record { id = 0; wakers = λ id. none }

abbrev pub entry_set : (ℕ → Option ℕ) → ℕ → Option ℕ → ℕ → Option ℕ
entry_set wakers id waker j = if j == id then waker else wakers j

-- `WakerList::handle`, with the id of the handle.
abbrev pub handle : WakerListInner → WakerListInner × ℕ
handle inner = (record inner { id = (inner.id + 1) % 2 ^ 64 }, inner.id)

-- `WakerListHandle::register`.
abbrev pub register : ℕ → ℕ → WakerListInner → WakerListInner
register id waker inner = record inner { wakers = entry_set inner.wakers id (some waker) }

-- The end of a handle.
abbrev pub drop_handle : ℕ → WakerListInner → WakerListInner
drop_handle id inner = record inner { wakers = entry_set inner.wakers id none }

-- `WakerList::notify_one`: the task that it wakes, if any.
pub data Notifies (inner : WakerListInner) : Option ℕ → Type 0 where
  one : (id w : ℕ) → inner.wakers id ≡ some w → Notifies inner (some w)
  nobody : ((id : ℕ) → inner.wakers id ≡ none) → Notifies inner none
