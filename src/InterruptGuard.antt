-- ===== src/InterruptGuard.antt =====
-- src/util/interrupt_guard.rs: values that are reached with interrupts disabled. The guards of all
-- values share one counter; other processors than the first one do not count.
use stream_os.Base.{
  ℕ, zero, suc, ◌+◌, ◌-◌, ◌<◌, ◌^◌, ◌≡◌, refl, arith, List, [], ◌∷◌, Option, none, some, Bool, true,
  false, ◌==◌, if◌then◌else◌, usize,
}

pub record Processor : Type 0 where
  pub num_guards : ℕ
  pub enabled : Bool

-- `InterruptGuarded::lock`.
unfoldable pub lock : Bool → Processor → Processor
lock bsp s = if bsp then record { num_guards = usize (s.num_guards + 1); enabled = false } else s

-- The end of an `InterruptGuard`.
unfoldable pub drop_guard : Bool → Processor → Processor
drop_guard bsp s =
    if bsp
    then record {
      num_guards = usize (s.num_guards + 2 ^ 32 - 1);
      enabled = if s.num_guards == 1 then true else s.enabled;
    }
    else s

pub data Call : Type 0 where
  locks drops : Call

unfoldable pub run : List Call → Processor → Processor
unfolding lock drop_guard
run [] s = s
run (locks ∷ calls) s = run calls (lock true s)
run (drops ∷ calls) s = run calls (drop_guard true s)

-- How many guards are left of `n` and those that some calls take; `none` if more are dropped than are
-- there.
abbrev pub depth : List Call → ℕ → Option ℕ
depth [] n = some n
depth (locks ∷ calls) n = depth calls (suc n)
depth (drops ∷ calls) zero = none
depth (drops ∷ calls) (suc n) = depth calls n

abbrev pub with_guards : ℕ → Processor
with_guards n = record { num_guards = n; enabled = n == 0 }

abbrev pub locks_in : List Call → ℕ
locks_in [] = 0
locks_in (locks ∷ calls) = suc (locks_in calls)
locks_in (drops ∷ calls) = locks_in calls

-- Whatever guards of the first processor are taken and dropped, nested or not, interrupts are enabled
-- exactly while there is none.
run-depth :
    (calls : List Call) (n m : ℕ)
    → n + locks_in calls < 2 ^ 32
    → depth calls n ≡ some m
    → run calls (with_guards n) ≡ with_guards m
unfolding run lock drop_guard
run-depth [] n m h e = ground arith
run-depth (locks ∷ calls) n m h e =
    rw (up n (locks_in calls) h) (run-depth calls (suc n) m (omega arith) e)
  where
    up : (n k : ℕ) → n + suc k < 2 ^ 32 → lock true (with_guards n) ≡ with_guards (suc n)
    up n k h = ground arith
run-depth (drops ∷ calls) zero m h e = cc
run-depth (drops ∷ calls) (suc n) m h e =
    rw (down n (locks_in calls) h) (run-depth calls n m (omega arith) e)
  where
    down : (n k : ℕ) → suc n + k < 2 ^ 32 → drop_guard true (with_guards (suc n)) ≡ with_guards n
    down n k h = ground arith

-- A guard that is taken and dropped while interrupts are disabled, as in an interrupt handler, leaves
-- them enabled.
guard-enables :
    drop_guard true (lock true (record { num_guards = 0; enabled = false })) ≡ with_guards 0
unfolding lock drop_guard
guard-enables = refl
