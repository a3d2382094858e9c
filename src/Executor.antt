-- ===== src/Executor.antt =====
-- src/future.rs, `Executor`: tasks, the queue of those that were woken, and the rounds of the loop that
-- polls them, on one processor. The queue is that of src/util/lock_free_queue.rs, as a list.
use stream_os.Base.{
  ℕ, zero, suc, ◌+◌, ◌≡◌, ◌%◌, ◌^◌, List, [], ◌∷◌, ◌++◌, Option, none, some, Bool, true, false,
  ◌==◌, ◌||◌, if◌then◌else◌, ◌>>=◌, length,
}
use mathlib.Core.Option
pub mod Laws

abbrev pub contains : ℕ → List ℕ → Bool
contains a [] = false
contains a (x ∷ xs) = (x == a) || contains a xs

abbrev pub Distinct : List ℕ → Type 0
Distinct [] = Unit
Distinct (x ∷ xs) = (contains x xs ≡ false) × Distinct xs

-- A hash set made of a list, as the sequence of its elements.
pub record HashSet : Type 0 where
  pub elements : List ℕ → List ℕ
  pub elements-Distinct : (xs : List ℕ) → Distinct (elements xs)
  pub contains-elements : (a : ℕ) (xs : List ℕ) → contains a (elements xs) ≡ contains a xs

-- The length that `Executor::new` asks for.
abbrev pub queue_length : ℕ
queue_length = 1024

-- `wake` and the end of `spawn`: a full queue is a panic.
unfoldable pub push_all : List ℕ → List ℕ → Option (List ℕ)
push_all [] to_run = some to_run
push_all (id ∷ ids) to_run =
    let rest = push_all ids (to_run ++ (id ∷ [])) in
    if length to_run == queue_length then none else rest

module _ {Fut : Type 0} where
  -- Whether there is a task with an id.
  abbrev pub has : ℕ → List (ℕ × Fut) → Bool
  has id [] = false
  has id ((k, fut) ∷ tasks) = (k == id) || has id tasks

  -- `tasks.lock().remove(..)`.
  abbrev pub keep_task : ℕ × Fut → Fut × List (ℕ × Fut) → Fut × List (ℕ × Fut)
  keep_task task (fut, rest) = (fut, task ∷ rest)

  unfoldable pub remove : ℕ → List (ℕ × Fut) → Option (Fut × List (ℕ × Fut))
  remove id [] = none
  remove id ((k, fut) ∷ tasks) =
      let later = Option.map (keep_task (k, fut)) (remove id tasks) in
      if k == id then some (fut, tasks) else later

  abbrev pub insert_pending : ℕ → Option Fut → List (ℕ × Fut) → List (ℕ × Fut)
  insert_pending id none tasks = tasks
  insert_pending id (some fut) tasks = (id, fut) ∷ tasks

-- What a poll of a future does: the ids of the tasks that it wakes, and the future that is left unless
-- it is ready.
pub record Polled (Fut World : Type 0) : Type 0 where
  pub world : World
  pub wakes : List ℕ
  pub pending : Option Fut

module _ (Fut World : Type 0) (poll : ℕ → Fut → World → Polled Fut World) where
  pub record Executor : Type 0 where
    pub id : ℕ
    pub tasks : List (ℕ × Fut)
    pub to_run : List ℕ
    pub world : World

  unfoldable pub new : World → Executor
  new world = record { id = 0; tasks = []; to_run = []; world = world }

  unfoldable pub spawn : Fut → Executor → Option Executor
  unfolding push_all
  spawn fut s = do
    to_run ← push_all (s.id ∷ []) s.to_run
    some (record s { id = (s.id + 1) % 2 ^ 64; tasks = (s.id, fut) ∷ s.tasks; to_run = to_run })

  -- A task that is polled, and the ids of those that were.
  abbrev pub poll_removed :
      ℕ → Executor → Option (Fut × List (ℕ × Fut)) → Option (Executor × List ℕ)
  poll_removed id s none = some (s, [])
  poll_removed id s (some (fut, rest)) =
      let result = poll id fut s.world in
      push_all result.wakes s.to_run >>= λ to_run. some (
        record s {
          tasks = insert_pending id result.pending rest;
          to_run = to_run;
          world = result.world;
        },
        id ∷ [],
      )

  unfoldable pub poll_task : ℕ → Executor → Option (Executor × List ℕ)
  poll_task id s = poll_removed id s (remove id s.tasks)

  unfoldable pub poll_tasks : List ℕ → Executor → Option (Executor × List ℕ)
  unfolding poll_task
  poll_tasks [] s = some (s, [])
  poll_tasks (id ∷ ids) s =
      poll_task id s >>= λ one. poll_tasks ids one.0 >>= λ rest. some (rest.0, one.1 ++ rest.1)

  pub data Round : Type 0 where
    finished : Round  -- `run` returns
    halted : Round  -- the processor waits for an interrupt
    ran : Executor → List ℕ → Round

  abbrev pub run_ids : List ℕ → Executor → Option Round
  run_ids [] s = some halted
  run_ids (id ∷ ids) s = poll_tasks (id ∷ ids) s >>= λ after. some (ran after.0 after.1)

  -- A round of the loop of `run`, by whether there are tasks.
  abbrev pub run_tasks : List (ℕ × Fut) → HashSet → Executor → Option Round
  run_tasks [] set s = some finished
  run_tasks (task ∷ tasks) set s = run_ids (set.elements s.to_run) (record s { to_run = [] })

  unfoldable pub round : HashSet → Executor → Option Round
  unfolding poll_tasks
  round set s = run_tasks s.tasks set s
