-- ===== src/UpdatedVal.antt =====
-- src/util/updated_val.rs: a value that tasks wait for. A waker is a number. A write and a read wait for
-- the lock, and are one step once they have it; a poll of a waiting task does not wait, and says whether
-- it got the lock. The lock's own list of wakers is that of src/util/async_mutex.rs.
use stream_os.Base.{
  ℕ, suc, ◌+◌, ◌%◌, ◌^◌, ◌<◌, ◌≡◌, refl, ap, ◌∙◌, sym, arith, List, [], ◌∷◌, ◌++◌, append-nil,
  append_assoc, Option, none, some, Bool, not, true, false, if◌then◌else◌, ◌==◌, u64, Bool-cases,
  inl, inr,
}

module _ (T : Type 0) where
  pub record Inner : Type 0 where
    pub val : T
    pub generation : ℕ
    pub waker : List ℕ

  unfoldable pub new : T → Inner
  new val = record { val = val; generation = 0; waker = [] }

  -- `UpdatedVal::write`, and the wakers that it wakes.
  unfoldable pub write : T → Inner → Inner × List ℕ
  write val inner =
      (record { val = val; generation = u64 (inner.generation + 1); waker = [] }, inner.waker)

  -- `UpdatedVal::wait` before it waits: the generation that its `Waiter` starts from.
  unfoldable pub wait : Inner → ℕ
  wait inner = inner.generation

  unfoldable pub read : Inner → T
  read inner = inner.val

  -- A poll of a `Waiter` in a task with the given waker; `none` is `Poll::Pending`. If someone else has
  -- the lock, the poll returns at once, and drops the future of the lock with the waker it left there.
  unfoldable pub poll : Bool → ℕ → ℕ → Inner → Inner × Option T
  poll is_free start_generation waker inner =
      if not is_free
      then (inner, none)
      else if start_generation == inner.generation
      then (record inner { waker = inner.waker ++ (waker ∷ []) }, none)
      else (inner, some inner.val)

  pub data Step : Type 0 where
    writes : T → Step
    polls : Bool → ℕ → ℕ → Step

  unfoldable pub run : List Step → Inner → Inner
  run [] inner = inner
  run (writes v ∷ steps) inner = run steps (write v inner).0
  run (polls b g w ∷ steps) inner = run steps (poll b g w inner).0

  -- How many values some steps write, and the value that holds after them.
  abbrev pub count : List Step → ℕ
  count [] = 0
  count (writes v ∷ steps) = suc (count steps)
  count (polls b g w ∷ steps) = count steps

  abbrev pub last_value : T → List Step → T
  last_value v [] = v
  last_value v (writes u ∷ steps) = last_value u steps
  last_value v (polls b g w ∷ steps) = last_value v steps

  -- A poll changes the list of wakers alone, and only at its end.
  poll-keeps :
      (b : Bool) (g w : ℕ) (inner : Inner)
      → (more : List ℕ) × ((poll b g w inner).0 ≡ record inner { waker = inner.waker ++ more })
  unfolding poll
  poll-keeps false g w inner =
      ([], ap (λ ws. record inner { waker = ws }) (sym (append-nil inner.waker)))
  poll-keeps true g w inner = elim (Bool-cases (g == inner.generation)) [
    | inl waits ↦ rw waits (w ∷ [], refl)
    | inr ready ↦
        rw ready ([], ap (λ ws. record inner { waker = ws }) (sym (append-nil inner.waker)))
  ]

  run-val :
      (steps : List Step) (inner : Inner)
      → ((run steps inner).val ≡ last_value inner.val steps)
        × ((run steps inner).generation % 2 ^ 64 ≡ (inner.generation + count steps) % 2 ^ 64)
  unfolding run write
  run-val [] inner = (refl, omega arith)
  run-val (writes v ∷ steps) inner =
      let (val, gen) = run-val steps (write v inner).0 in (val, omega arith)
  run-val (polls b g w ∷ steps) inner =
      let (more, e) = poll-keeps b g w inner in
      let (val, gen) = run-val steps (poll b g w inner).0 in
      (
        val ∙ ap (λ i. last_value i.val steps) e,
        gen ∙ ap (λ i. (i.generation + count steps) % 2 ^ 64) e,
      )

  -- Steps without a write only add wakers.
  run-quiet :
      (steps : List Step) (inner : Inner)
      → count steps ≡ 0
      → (more : List ℕ) × (run steps inner ≡ record inner { waker = inner.waker ++ more })
  unfolding run
  run-quiet [] inner h = ([], ap (λ ws. record inner { waker = ws }) (sym (append-nil inner.waker)))
  run-quiet (writes v ∷ steps) inner h = absurd (omega arith)
  run-quiet (polls b g w ∷ steps) inner h =
      let (first, e) = poll-keeps b g w inner in
      let (more, f) = run-quiet steps (record inner { waker = inner.waker ++ first }) h in
      (
        first ++ more,
        ap (run steps) e
            ∙ f
            ∙ ap (λ ws. record inner { waker = ws }) (append_assoc inner.waker first more),
      )

  differs : (g k n : ℕ) → n % 2 ^ 64 ≡ (g + k) % 2 ^ 64 → 0 < k → k < 2 ^ 64 → (g == n) ≡ false
  differs g k n e h l = elim (Bool-cases (g == n)) [
    | inr other ↦ other
    | inl same ↦ absurd (ground arith)
  ]

  -- After some writes, fewer than 2^64, amid any polls, a task that waits since before them and gets the
  -- lock gets the value that was written last, and nothing changes.
  poll-last_value :
      (steps : List Step) (inner : Inner) (w : ℕ)
      → 0 < count steps
      → count steps < 2 ^ 64
      → poll true (wait inner) w (run steps inner)
        ≡ (run steps inner, some (last_value inner.val steps))
  unfolding poll wait
  poll-last_value steps inner w h k =
      let (val, gen) = run-val steps inner in
      rw (differs inner.generation (count steps) (run steps inner).generation gen h k)
        (ap (λ v. (run steps inner, some v)) val)

  -- A task that waits, and whose poll gets the lock and finds no write, is woken by the next write,
  -- whatever polls there are between. If its poll does not get the lock it waits as well, but the poll
  -- leaves no trace: the next write wakes those that it would have woken without it.
  pub poll-Woken :
      (steps : List Step) (inner : Inner) (w : ℕ) (v : T)
      → count steps ≡ 0
      → ((poll true (wait inner) w inner).1 ≡ none)
        × ((before : List ℕ) × (after : List ℕ) × ((write v
                (run steps (poll true (wait inner) w inner).0)).1
              ≡ before ++ (w ∷ after)))
        × ((poll false (wait inner) w inner).1 ≡ none)
        × ((write v (run steps (poll false (wait inner) w inner).0)).1
            ≡ (write v (run steps inner)).1)
  unfolding poll wait write
  poll-Woken steps inner w v h = rw (same inner.generation) (
    refl,
    (let (more, e) = run-quiet steps (record inner { waker = inner.waker ++ (w ∷ []) }) h in
        (inner.waker, more, ap (λ i. i.waker) e ∙ append_assoc inner.waker (w ∷ []) more)),
    refl,
    refl,
  )
    where
      same : (n : ℕ) → (n == n) ≡ true
      same n = ground arith
