-- ===== src/SpinLock.antt =====
-- src/util/spinlock.rs: a lock that its threads spin on, each access to the flag a step.
use stream_os.Base.{ℕ, ◌≡◌, ◌≢◌, refl, arith, Bool, true, false, ◌==◌, if◌then◌else◌}

-- Where a thread stands.
pub data ThreadAt : Type 0 where
  outside : ThreadAt
  spinning : ThreadAt  -- in the loop of `SpinLock::lock`
  asserting : ThreadAt  -- before the assertion that follows the loop
  holding : ThreadAt  -- with a `SpinLockGuard`
  panicked : ThreadAt

pub record SpinLock : Type 0 where
  pub available : Bool
  pub at : ℕ → ThreadAt

unfoldable pub new : SpinLock
new = record { available = true; at = λ i. ThreadAt.outside }

abbrev pub move_to : (ℕ → ThreadAt) → ℕ → ThreadAt → ℕ → ThreadAt
move_to at i t j = if j == i then t else at j

-- One access of one thread.
pub data Step (s : SpinLock) : SpinLock → Type 0 where
  lock :
      (i : ℕ)
      → s.at i ≡ ThreadAt.outside
      → Step s (record s { at = move_to s.at i ThreadAt.spinning })
  exchange_wins :
      (i : ℕ)
      → s.at i ≡ ThreadAt.spinning
      → s.available ≡ true
      → Step s (record { available = false; at = move_to s.at i ThreadAt.asserting })
  exchange_fails : (i : ℕ) → s.at i ≡ ThreadAt.spinning → s.available ≡ false → Step s s
  assert_holds :
      (i : ℕ)
      → s.at i ≡ ThreadAt.asserting
      → s.available ≡ false
      → Step s (record s { at = move_to s.at i ThreadAt.holding })
  assert_fails :
      (i : ℕ)
      → s.at i ≡ ThreadAt.asserting
      → s.available ≡ true
      → Step s (record s { at = move_to s.at i ThreadAt.panicked })
  drop :
      (i : ℕ)
      → s.at i ≡ ThreadAt.holding
      → Step s (record { available = true; at = move_to s.at i ThreadAt.outside })

pub data Reach : SpinLock → Type 0 where
  start : Reach new
  later : {s t : SpinLock} → Reach s → Step s t → Reach t

-- From the exchange that wins to the store that frees the lock.
abbrev pub inside : ThreadAt → Bool
inside ThreadAt.asserting = true
inside ThreadAt.holding = true
inside other = false

-- What holds of every reachable state.
record Excludes (s : SpinLock) : Type 0 where
  taken : (i : ℕ) → inside (s.at i) ≡ true → s.available ≡ false
  alone : (i j : ℕ) → inside (s.at i) ≡ true → inside (s.at j) ≡ true → i ≡ j
  sound : (i : ℕ) → s.at i ≢ ThreadAt.panicked

new-Excludes : Excludes new
unfolding new
new-Excludes = record { taken = λ i h. cc; alone = λ i j h k. cc; sound = λ i h. cc }

Step-Excludes : {s t : SpinLock} → Step s t → Excludes s → Excludes t
Step-Excludes (lock i at) e = record {
  taken = λ j h. ground (arith, e.taken j);
  alone = λ j k h l. ground (arith, e.alone j k);
  sound = λ j h. ground (arith, e.sound j);
}
Step-Excludes (exchange_wins i at free) e = record {
  taken = λ j h. refl;
  alone = λ j k h l. ground (arith, e.taken j, e.taken k);
  sound = λ j h. ground (arith, e.sound j);
}
Step-Excludes (exchange_fails i at held) e = e
Step-Excludes (assert_holds i at held) e = record {
  taken = λ j h. held;
  alone = λ j k h l. ground (arith, e.alone j k, e.alone i k, e.alone j i);
  sound = λ j h. ground (arith, e.sound j);
}
Step-Excludes (assert_fails i at free) e = absurd (cc (e.taken i (rw at refl), free))
Step-Excludes (drop i at) e = record {
  taken = λ j h. ground (arith, e.alone i j);
  alone = λ j k h l. ground (arith, e.alone j k);
  sound = λ j h. ground (arith, e.sound j);
}

Reach-Excludes : {s : SpinLock} → Reach s → Excludes s
Reach-Excludes start = new-Excludes
Reach-Excludes (later r step) = Step-Excludes step (Reach-Excludes r)

-- Whatever the threads do in whatever order, two threads never hold the lock at once, and the flag
-- says that the lock is not available while one does.
pub Reach-exclusive :
    {s : SpinLock} (i j : ℕ)
    → Reach s
    → s.at i ≡ ThreadAt.holding
    → s.at j ≡ ThreadAt.holding
    → (i ≡ j) × (s.available ≡ false)
Reach-exclusive i j r h k =
    let e = Reach-Excludes r in (e.alone i j (rw h refl) (rw k refl), e.taken i (rw h refl))

-- The assertion after the loop never fails.
Reach-asserts : {s : SpinLock} (i : ℕ) → Reach s → s.at i ≢ ThreadAt.panicked
Reach-asserts i r = (Reach-Excludes r).sound i
