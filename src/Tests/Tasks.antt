-- ===== src/Tests/Tasks.antt =====
-- The executor with tasks that count down.
use stream_os.Base.{
  ℕ, zero, suc, ◌≡◌, ◌≤◌, refl, arith, List, [], ◌∷◌, none, some, ◌&&◌, if◌then◌else◌, length,
  Bool-cases, inl, inr,
}
use stream_os.Executor.{contains, Distinct, HashSet, Polled, Executor, Round, has, round}
use stream_os.Executor.Laws.{round-polls}

-- A hash set that gives each element at its last place.
abbrev elements : List ℕ → List ℕ
elements [] = []
elements (x ∷ xs) = if contains x xs then elements xs else x ∷ elements xs

contains-elements : (a : ℕ) (xs : List ℕ) → contains a (elements xs) ≡ contains a xs
contains-elements a [] = refl
contains-elements a (x ∷ xs) = ground (arith, contains-elements a xs)

elements-Distinct : (xs : List ℕ) → Distinct (elements xs)
elements-Distinct [] = tt
elements-Distinct (x ∷ xs) = elim (Bool-cases (contains x xs)) [
  | inl again ↦ rw again (elements-Distinct xs)
  | inr fresh ↦ rw (fresh, contains-elements x xs) (fresh, elements-Distinct xs)
]

abbrev last_places : HashSet
last_places = record {
  elements = elements;
  elements-Distinct = elements-Distinct;
  contains-elements = contains-elements;
}

-- A future that wakes itself until it has counted down to 0; the world counts the polls.
abbrev countdown : ℕ → ℕ → ℕ → Polled ℕ ℕ
countdown id zero polls = record { world = suc polls; wakes = []; pending = none }
countdown id (suc n) polls = record { world = suc polls; wakes = id ∷ []; pending = some n }

countdown-few : (id n polls : ℕ) → length (countdown id n polls).wakes ≤ 1
countdown-few id zero polls = omega arith
countdown-few id (suc n) polls = omega arith

-- Tasks 2 and 0 are woken, the first one twice; 7 has ended.
abbrev woken : Executor ℕ ℕ countdown
woken = record {
  id = 8;
  tasks = (0, 3) ∷ (1, 5) ∷ (2, 0) ∷ [];
  to_run = 2 ∷ 7 ∷ 2 ∷ 0 ∷ [];
  world = 0;
}

round-polls_example :
    (after : Executor ℕ ℕ countdown) × (polled : List ℕ) × (round ℕ ℕ countdown last_places woken
      ≡ some (Round.ran after polled))
    × ((j : ℕ) → contains j polled ≡ (contains j woken.to_run && has j woken.tasks))
    × Distinct polled
round-polls_example =
    round-polls ℕ ℕ countdown 1 countdown-few last_places woken 2 refl refl (omega arith)
