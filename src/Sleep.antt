-- ===== src/Sleep.antt =====
-- src/sleep.rs: the wakeup times that tasks post, and what the timer's interrupt wakes. A waker is a
-- number. The `BTreeMap` is the list of its entries, in the order of their times.
pub mod Kept
pub mod Laws
pub mod Requests
use stream_os.Base.{
  ℕ, zero, suc, ◌+◌, ◌<◌, ◌≤◌, ◌≡◌, refl, ap, ap₂, ◌∙◌, sym, arith, List, [], ◌∷◌, ◌++◌, Option,
  none, some, ◌>>=◌, if◌then◌else◌, ltb, ltb→lt, lt→ltb, ◌==◌, Bool-cases, inl, inr, true, false,
}

abbrev pub WakeupTimes : Type 0
WakeupTimes = List (ℕ × List ℕ)

-- `entry(time).or_default()`, and a push to it.
unfoldable pub post : ℕ → ℕ → WakeupTimes → WakeupTimes
post time waker [] = (time, waker ∷ []) ∷ []
post time waker ((t, wakers) ∷ rest) =
    let later = post time waker rest in
    if t == time
    then (t, wakers ++ (waker ∷ [])) ∷ rest
    else if ltb time t
    then (time, waker ∷ []) ∷ (t, wakers) ∷ rest
    else (t, wakers) ∷ later

-- One turn of the loop of `WakeupService::service`, over all that was posted.
unfoldable pub service : List (ℕ × ℕ) → WakeupTimes → WakeupTimes
service [] times = times
service ((time, waker) ∷ posted) times = service posted (post time waker times)

-- The first loop of `wakeup_if_neccessary`, from index `i`.
unfoldable pub last_idx : ℕ → ℕ → ℕ → WakeupTimes → ℕ
last_idx time i last [] = last
last_idx time i last ((item, wakers) ∷ rest) =
    let later = last_idx time (i + 1) (i + 1) rest in if ltb time item then last else later

-- Its second loop: the wakers that are woken, in order, and the entries that are left.
unfoldable pub pop_first : ℕ → WakeupTimes → Option (List ℕ × WakeupTimes)
pop_first zero times = some ([], times)
pop_first (suc n) [] = none
pop_first (suc n) ((time, wakers) ∷ rest) =
    pop_first n rest >>= λ (woken, left). some (wakers ++ woken, left)

unfoldable pub wakeup_if_neccessary : ℕ → WakeupTimes → Option (List ℕ × WakeupTimes)
wakeup_if_neccessary time times = pop_first (last_idx time 0 0 times) times
