-- ===== src/Multiprocessing/Dispatcher.antt =====
-- src/multiprocessing.rs, `CpuFnDispatcher` and the loop of a started processor: functions that one
-- processor hands to others, under the spin locks of their queues. A function is a value of any type.
use stream_os.Base.{
  ℕ, ◌≡◌, refl, sym, ap, ◌∙◌, arith, List, [], ◌∷◌, ◌++◌, append-nil, append_assoc, Bool, true,
  false, ◌==◌, if◌then◌else◌, Result, ok, err, Bool-cases, inl, inr,
}

pub data ExecuteError : Type 0 where
  unknown_cpu : ExecuteError

module _ (Fn : Type 0) where
  -- The queue of each processor, those that the dispatcher knows, and those that have just started.
  pub record Cpus : Type 0 where
    pub queues : ℕ → List Fn
    pub known : ℕ → Bool
    pub boot_info : List ℕ

  abbrev pub set_queue : (ℕ → List Fn) → ℕ → List Fn → ℕ → List Fn
  set_queue queues cpu queue j = if j == cpu then queue else queues j

  -- The start of `ap_startup`.
  unfoldable pub start : ℕ → Cpus → Cpus
  start cpu s = record s {
    queues = set_queue s.queues cpu [];
    boot_info = s.boot_info ++ (cpu ∷ []);
  }

  -- `BootInfoQueueAvailable`, and the insertion that follows it.
  abbrev pub serve : List ℕ → Cpus → Cpus
  serve [] s = s
  serve (cpu ∷ rest) s = record s {
    known = λ j. if j == cpu then true else s.known j;
    boot_info = rest;
  }

  abbrev pub execute_on : Bool → ℕ → Fn → Cpus → Cpus × Result ℕ ExecuteError
  execute_on false cpu f s = (s, err unknown_cpu)
  execute_on true cpu f s =
      (record s { queues = set_queue s.queues cpu (s.queues cpu ++ (f ∷ [])) }, ok cpu)

  -- `CpuFnDispatcher::execute`; the interrupt that it sends is the result.
  unfoldable pub execute : ℕ → Fn → Cpus → Cpus × Result ℕ ExecuteError
  execute cpu f s = execute_on (s.known cpu) cpu f s

  -- A turn of the loop of a processor, with the function that it calls.
  abbrev pub rest_of : List Fn → List Fn
  rest_of [] = []
  rest_of (f ∷ fs) = fs

  abbrev pub first_of : List Fn → List Fn
  first_of [] = []
  first_of (f ∷ fs) = f ∷ []

  unfoldable pub turn : ℕ → Cpus → Cpus
  turn cpu s = record s { queues = set_queue s.queues cpu (rest_of (s.queues cpu)) }

  pub data Step : Type 0 where
    executes : ℕ → Fn → Step
    turns : ℕ → Step
    serves : Step

  unfoldable pub run_step : Step → Cpus → Cpus
  unfolding execute turn
  run_step (executes cpu f) s = (execute cpu f s).0
  run_step (turns cpu) s = turn cpu s
  run_step serves s = serve s.boot_info s

  -- What a processor is handed in a step, and what it calls in it.
  abbrev pub handed : ℕ → Step → Cpus → List Fn
  handed cpu (executes k f) s = if s.known k then (if cpu == k then f ∷ [] else []) else []
  handed cpu other s = []

  abbrev pub called : ℕ → Step → Cpus → List Fn
  called cpu (turns k) s = if cpu == k then first_of (s.queues cpu) else []
  called cpu other s = []

  abbrev pub all_handed : ℕ → List Step → Cpus → List Fn
  unfolding run_step
  all_handed cpu [] s = []
  all_handed cpu (step ∷ steps) s = handed cpu step s ++ all_handed cpu steps (run_step step s)

  abbrev pub all_called : ℕ → List Step → Cpus → List Fn
  unfolding run_step
  all_called cpu [] s = []
  all_called cpu (step ∷ steps) s = called cpu step s ++ all_called cpu steps (run_step step s)

  unfoldable pub run : List Step → Cpus → Cpus
  unfolding run_step
  run [] s = s
  run (step ∷ steps) s = run steps (run_step step s)

  first-rest : (fs : List Fn) → first_of fs ++ rest_of fs ≡ fs
  first-rest [] = refl
  first-rest (f ∷ fs) = refl

  execute-balance :
      (cpu k : ℕ) (f : Fn) (s : Cpus) (known : Bool)
      → (execute_on known k f s).0.queues cpu
        ≡ s.queues cpu ++ (if known then (if cpu == k then f ∷ [] else []) else [])
  execute-balance cpu k f s false = sym (append-nil (s.queues cpu))
  execute-balance cpu k f s true = elim (Bool-cases (cpu == k)) [
    | inl same ↦
        let e : cpu ≡ k = ground arith in rw same (ap (λ j. s.queues j ++ (f ∷ [])) (sym e))
    | inr other ↦ rw other (sym (append-nil (s.queues cpu)))
  ]

  step-balance :
      (cpu : ℕ) (step : Step) (s : Cpus)
      → called cpu step s ++ (run_step step s).queues cpu ≡ s.queues cpu ++ handed cpu step s
  unfolding run_step execute turn
  step-balance cpu (executes k f) s = execute-balance cpu k f s (s.known k)
  step-balance cpu (turns k) s = elim (Bool-cases (cpu == k)) [
    | inl same ↦
        let e : cpu ≡ k = ground arith in
        rw (same, ← e) (first-rest (s.queues cpu) ∙ sym (append-nil (s.queues cpu)))
    | inr other ↦ rw other (sym (append-nil (s.queues cpu)))
  ]
  step-balance cpu serves s = served s.boot_info
    where
      served : (b : List ℕ) → (serve b s).queues cpu ≡ s.queues cpu ++ []
      served [] = sym (append-nil (s.queues cpu))
      served (k ∷ rest) = sym (append-nil (s.queues cpu))

  -- Over any steps, what a processor has called and then what is still in its queue are what was in
  -- its queue at first and then what was handed to it: nothing is lost, doubled or reordered.
  run-handed :
      (cpu : ℕ) (steps : List Step) (s : Cpus)
      → all_called cpu steps s ++ (run steps s).queues cpu ≡ s.queues cpu ++ all_handed cpu steps s
  unfolding run
  run-handed cpu [] s = sym (append-nil (s.queues cpu))
  run-handed cpu (step ∷ steps) s =
      append_assoc (called cpu step s) (all_called cpu steps (run_step step s)) _
      ∙ ap (λ q. called cpu step s ++ q) (run-handed cpu steps (run_step step s))
      ∙ sym (append_assoc (called cpu step s) ((run_step step s).queues cpu) _)
      ∙ ap (λ q. q ++ all_handed cpu steps (run_step step s)) (step-balance cpu step s)
      ∙ append_assoc (s.queues cpu) (handed cpu step s) _
