-- ===== src/Executor/Laws.antt =====
-- What a round of the executor of src/future.rs polls.
use stream_os.Base.{
  ℕ, suc, ◌+◌, ◌*◌, ◌≡◌, ◌≤◌, ◌<◌, ◌↔◌, refl, sym, ap, ◌∙◌, arith, List, [], ◌∷◌, ◌++◌, append-nil,
  append_assoc, Option, none, some, Bool, true, false, ◌==◌, ◌||◌, ◌&&◌, if◌then◌else◌, ◌>>=◌,
  length, length-append, Bool-cases, inl, inr,
}
use stream_os.Executor.{
  contains, Distinct, HashSet, queue_length, push_all, Polled, Executor, Round, has, remove,
  insert_pending, poll_task, poll_tasks, round, run_ids, run_tasks,
}

push_all-some :
    (ids to_run : List ℕ)
    → length to_run + length ids ≤ queue_length
    → push_all ids to_run ≡ some (to_run ++ ids)
unfolding push_all
push_all-some [] to_run h = ap some (sym (append-nil to_run))
push_all-some (id ∷ ids) to_run h = rw (
  free (length to_run) (length ids) h,
  push_all-some ids (to_run ++ (id ∷ [])) (omega (arith, length-append to_run (id ∷ []))),
  append_assoc,
)
  where
    free : (a b : ℕ) → a + suc b ≤ queue_length → (a == queue_length) ≡ false
    free a b h = ground arith

-- Pushing panics exactly if the queue has no room for all of the ids.
push_all-none_iff :
    (ids to_run : List ℕ)
    → length to_run ≤ queue_length
    → (push_all ids to_run ≡ none) ↔ (queue_length < length to_run + length ids)
unfolding push_all
push_all-none_iff [] to_run h = ((λ e. cc), λ l. absurd (omega arith))
push_all-none_iff (id ∷ ids) to_run h = elim (Bool-cases (length to_run == queue_length)) [
  | inl full ↦ rw full ((λ e. ground arith), λ l. refl)
  | inr free ↦ rw free (
      ground (
        arith,
        push_all-none_iff ids (to_run ++ (id ∷ []))
            (rw (length-append to_run (id ∷ [])) (ground arith)),
        length-append to_run (id ∷ []),
      ))
]

module _ {Fut : Type 0} where
  remove-none : (id : ℕ) (tasks : List (ℕ × Fut)) → has id tasks ≡ false → remove id tasks ≡ none
  unfolding remove
  remove-none id [] h = refl
  remove-none id ((k, fut) ∷ tasks) h = ground (arith, remove-none id tasks)

  remove-some :
      (id : ℕ) (tasks : List (ℕ × Fut))
      → has id tasks ≡ true
      → (fut : Fut) × (rest : List (ℕ × Fut)) × (remove id tasks ≡ some (fut, rest))
        × ((j : ℕ) → has j tasks ≡ ((id == j) || has j rest))
  unfolding remove
  remove-some id [] h = absurd (cc h)
  remove-some id ((k, fut) ∷ tasks) h = elim (Bool-cases (k == id)) [
    | inl same ↦ (fut, tasks, rw same, λ j. ground arith)
    | inr other ↦
        let (f, rest, removed, others) = remove-some id tasks (left (k == id) _ h other) in
        (f, (k, fut) ∷ rest, rw (other, removed), λ j. ground (arith, others j))
  ]
    where
      left : (a b : Bool) → (a || b) ≡ true → a ≡ false → b ≡ true
      left a b h k = ground arith

  has-insert :
      (id j : ℕ) (pending : Option Fut) (rest : List (ℕ × Fut))
      → (id == j) ≡ false
      → has j (insert_pending id pending rest) ≡ has j rest
  has-insert id j none rest h = refl
  has-insert id j (some fut) rest h = rw h

-- One poll: who is polled, which tasks are left, and how the queue grows.
record IsPolled {Fut World : Type 0} (poll : ℕ → Fut → World → Polled Fut World) (k id : ℕ)
    (s : Executor Fut World poll) : Type 0 where
  after : Executor Fut World poll
  polled : List ℕ
  ran : poll_task Fut World poll id s ≡ some (after, polled)
  polled_eq : polled ≡ (if has id s.tasks then id ∷ [] else [])
  kept : (j : ℕ) → (id == j) ≡ false → has j after.tasks ≡ has j s.tasks
  wakes : List ℕ
  queued : after.to_run ≡ s.to_run ++ wakes
  few : length wakes ≤ k

-- The polls of some ids, one after the other.
pub record ArePolled {Fut World : Type 0} (poll : ℕ → Fut → World → Polled Fut World) (ids : List ℕ)
    (s : Executor Fut World poll) : Type 0 where
  pub after : Executor Fut World poll
  pub polled : List ℕ
  pub ran : poll_tasks Fut World poll ids s ≡ some (after, polled)
  pub polled_iff : (j : ℕ) → contains j polled ≡ (contains j ids && has j s.tasks)
  pub once : Distinct polled
  pub wakes : List ℕ
  pub queued : after.to_run ≡ s.to_run ++ wakes

abbrev first_of : Bool → ℕ → List ℕ
first_of there id = if there then id ∷ [] else []

first-same :
    (id : ℕ) (there : Bool) (polled : List ℕ)
    → contains id polled ≡ false
    → contains id (first_of there id ++ polled) ≡ there
first-same id true polled e = ground arith
first-same id false polled e = e

first-other :
    (id j : ℕ) (there : Bool) (polled : List ℕ)
    → (id == j) ≡ false
    → contains j (first_of there id ++ polled) ≡ contains j polled
first-other id j true polled e = rw e
first-other id j false polled e = refl

first-Distinct :
    (id : ℕ) (there : Bool) (polled : List ℕ)
    → contains id polled ≡ false
    → Distinct polled
    → Distinct (first_of there id ++ polled)
first-Distinct id true polled e d = (e, d)
first-Distinct id false polled e d = d

mul_suc : (k n : ℕ) → k * suc n ≡ k + k * n
mul_suc k n = grind arith

module _ (Fut World : Type 0) (poll : ℕ → Fut → World → Polled Fut World) (k : ℕ)
    (few : (id : ℕ) (fut : Fut) (w : World) → length (poll id fut w).wakes ≤ k) where
  poll_task-IsPolled :
      (id : ℕ) (s : Executor Fut World poll)
      → length s.to_run + k ≤ queue_length
      → IsPolled poll k id s
  unfolding poll_task
  poll_task-IsPolled id s h = elim (Bool-cases (has id s.tasks)) [
    | inr absent ↦ record {
      after = s;
      polled = [];
      ran = rw (remove-none id s.tasks absent);
      polled_eq = rw absent;
      kept = λ j apart. refl;
      wakes = [];
      queued = sym (append-nil s.to_run);
      few = omega arith;
    }
    | inl there ↦
        (let (fut, rest, removed, others) = remove-some id s.tasks there in
          let result = poll id fut s.world in
          record {
            after = record s {
              tasks = insert_pending id result.pending rest;
              to_run = s.to_run ++ result.wakes;
              world = result.world;
            };
            polled = id ∷ [];
            ran =
                rw (
                  removed,
                  push_all-some result.wakes s.to_run (omega (arith, few id fut s.world)),
                );
            polled_eq = rw there;
            kept = λ j apart. has-insert id j result.pending rest apart ∙ rw (others j, apart);
            wakes = result.wakes;
            queued = refl;
            few = few id fut s.world;
          })
  ]

  poll_tasks-ArePolled :
      (ids : List ℕ) (s : Executor Fut World poll)
      → Distinct ids
      → length s.to_run + k * length ids ≤ queue_length
      → ArePolled poll ids s
  unfolding poll_tasks
  poll_tasks-ArePolled [] s d h = record {
    after = s;
    polled = [];
    ran = refl;
    polled_iff = λ j. refl;
    once = tt;
    wakes = [];
    queued = sym (append-nil s.to_run);
  }
  poll_tasks-ArePolled (id ∷ ids) s d h =
      let one = poll_task-IsPolled id s (omega (arith, mul_suc k (length ids))) in
      let rest = poll_tasks-ArePolled ids one.after d.1 (
        rw one.queued
          (omega (arith, mul_suc k (length ids), length-append s.to_run one.wakes, one.few))) in
      let absent : contains id rest.polled ≡ false = rest.polled_iff id ∙ rw d.0 in
      record {
        after = rest.after;
        polled = one.polled ++ rest.polled;
        ran = rw (one.ran, rest.ran);
        polled_iff = λ j. elim (Bool-cases (id == j)) [
          | inl same ↦
              let e : id ≡ j = ground arith in
              rw (one.polled_eq, same, ← e) (first-same id (has id s.tasks) rest.polled absent)
          | inr other ↦
              rw (one.polled_eq, other)
                (first-other id j (has id s.tasks) rest.polled other
                  ∙ rest.polled_iff j
                  ∙ ap (λ b. contains j ids && b) (one.kept j other))
        ];
        once = rw one.polled_eq (first-Distinct id (has id s.tasks) rest.polled absent rest.once);
        wakes = one.wakes ++ rest.wakes;
        queued =
            rest.queued
            ∙ ap (λ q. q ++ rest.wakes) one.queued
            ∙ append_assoc s.to_run one.wakes rest.wakes;
      }

  run_tasks-some :
      (w : ℕ) (tasks : List (ℕ × Fut)) (set : HashSet) (s : Executor Fut World poll)
      → has w tasks ≡ true
      → run_tasks Fut World poll tasks set s
        ≡ run_ids Fut World poll (set.elements s.to_run) (record s { to_run = [] })
  run_tasks-some w [] set s h = absurd (cc h)
  run_tasks-some w (task ∷ tasks) set s h = refl

  run_ids-some :
      (w : ℕ) (ids : List ℕ) (s : Executor Fut World poll)
      → contains w ids ≡ true
      → run_ids Fut World poll ids s
        ≡ (poll_tasks Fut World poll ids s >>= λ after. some (Round.ran after.0 after.1))
  run_ids-some w [] s h = absurd (cc h)
  run_ids-some w (id ∷ ids) s h = refl

  -- Let no poll, of any future in any world, wake more than k tasks, and let k times the number of
  -- different tasks that were woken, there or not, be at most 1024, the length of the queue. Then a
  -- round in which a task that is there was woken does not panic. It polls exactly the tasks that are there and were
  -- woken, each of them once, whatever order the hash set gives.
  pub round-polls :
      (set : HashSet) (s : Executor Fut World poll) (w : ℕ)
      → contains w s.to_run ≡ true
      → has w s.tasks ≡ true
      → k * length (set.elements s.to_run) ≤ queue_length
      → (after : Executor Fut World poll) × (polled : List ℕ) × (round Fut World poll set s
          ≡ some (Round.ran after polled))
        × ((j : ℕ) → contains j polled ≡ (contains j s.to_run && has j s.tasks))
        × Distinct polled
  unfolding round
  round-polls set s w woken there room =
      let ids = set.elements s.to_run in
      let all =
        poll_tasks-ArePolled ids (record s { to_run = [] }) (set.elements-Distinct s.to_run)
          (omega arith) in
      (
        all.after,
        all.polled,
        run_tasks-some w s.tasks set s there
            ∙ run_ids-some w ids (record s { to_run = [] })
                (set.contains-elements w s.to_run ∙ woken)
            ∙ rw all.ran,
        λ j. all.polled_iff j ∙ ap (λ b. b && has j s.tasks) (set.contains-elements j s.to_run),
        all.once,
      )
