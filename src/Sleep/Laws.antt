-- ===== src/Sleep/Laws.antt =====
-- Which wakers the interrupt wakes.
use stream_os.Base.{
  ℕ, suc, ◌+◌, ◌<◌, ◌≡◌, refl, ap, ◌∙◌, arith, List, [], ◌∷◌, some, ltb, ltb→lt, lt→ltb, ◌==◌,
  Bool-cases, inl, inr,
}
use stream_os.Sleep.Kept.{due, not_due, count, wakers_of, posted_due, posted_later, service-counts}
use stream_os.Sleep.{WakeupTimes, post, service, last_idx, pop_first, wakeup_if_neccessary}

abbrev pub IsAbove : ℕ → WakeupTimes → Type 0
IsAbove t [] = Unit {0}
IsAbove t ((time, wakers) ∷ rest) = (t < time) × IsAbove t rest

abbrev pub IsSorted : WakeupTimes → Type 0
IsSorted [] = Unit {0}
IsSorted ((time, wakers) ∷ rest) = IsAbove time rest × IsSorted rest

IsAbove-post :
    (t time waker : ℕ) (times : WakeupTimes)
    → t < time
    → IsAbove t times
    → IsAbove t (post time waker times)
unfolding post
IsAbove-post t time waker [] h k = (h, tt)
IsAbove-post t time waker ((u, ws) ∷ rest) h k = elim (Bool-cases (u == time)) [
  | inl same ↦ rw same k
  | inr other ↦ elim (Bool-cases (ltb time u)) [
    | inl before ↦ rw (other, before) (h, k)
    | inr after ↦ rw (other, after) (k.0, IsAbove-post t time waker rest h k.1)
  ]
]

IsAbove-trans : (t u : ℕ) (times : WakeupTimes) → t < u → IsAbove u times → IsAbove t times
IsAbove-trans t u [] h k = tt
IsAbove-trans t u ((v, ws) ∷ rest) h k = (omega arith, IsAbove-trans t u rest h k.1)

post-IsSorted :
    (time waker : ℕ) (times : WakeupTimes) → IsSorted times → IsSorted (post time waker times)
unfolding post
post-IsSorted time waker [] h = (tt, tt)
post-IsSorted time waker ((u, ws) ∷ rest) h = elim (Bool-cases (u == time)) [
  | inl same ↦ rw same h
  | inr other ↦ elim (Bool-cases (ltb time u)) [
    | inl before ↦
        rw (other, before)
          ((ltb→lt _ _ before, IsAbove-trans time u rest (ltb→lt _ _ before) h.0), h)
    | inr after ↦
        rw (other, after)
          (IsAbove-post u time waker rest (ground arith) h.0, post-IsSorted time waker rest h.1)
  ]
]

none_due :
    (now : ℕ) (times : WakeupTimes)
    → IsAbove now times
    → (due now times ≡ []) × (not_due now times ≡ times)
none_due now [] h = (refl, refl)
none_due now ((t, ws) ∷ rest) h =
    let (a, b) = none_due now rest h.1 in rw (lt→ltb now t h.0) (a, ap (λ r. (t, ws) ∷ r) b)

-- The count goes up by one for each entry in front whose time has come.
last_idx-suc :
    (now i : ℕ) (rest : WakeupTimes)
    → last_idx now (suc i) (suc i) rest ≡ suc (last_idx now i i rest)
unfolding last_idx
last_idx-suc now i [] = refl
last_idx-suc now i ((u, vs) ∷ rest) = elim (Bool-cases (ltb now u)) [
  | inl stop ↦ rw stop
  | inr more ↦ rw more (
      ap (λ n. last_idx now n n rest) {y = suc (i + 1)} (omega arith)
      ∙ last_idx-suc now (i + 1) rest)
]

wakes :
    (now : ℕ) (times : WakeupTimes)
    → IsSorted times
    → pop_first (last_idx now 0 0 times) times ≡ some (due now times, not_due now times)
unfolding pop_first last_idx
wakes now [] h = refl
wakes now ((t, ws) ∷ rest) h = elim (Bool-cases (ltb now t)) [
  | inl stop ↦
      let (a, b) = none_due now rest (IsAbove-trans now t rest (ltb→lt _ _ stop) h.0) in
      rw (stop, a, b)
  | inr more ↦ rw (more, last_idx-suc now 0 rest, wakes now rest h.1)
]

service-IsSorted :
    (posted : List (ℕ × ℕ)) (times : WakeupTimes) → IsSorted times → IsSorted (service posted times)
unfolding service
service-IsSorted [] times h = h
service-IsSorted ((time, waker) ∷ posted) times h =
    service-IsSorted posted (post time waker times) (post-IsSorted time waker times h)

-- Whatever is posted, sorted wakeup times stay sorted, and the interrupt then never panics: the
-- wakers that it wakes are those of the entries whose time has come, in the order of their times, and
-- it keeps exactly the entries whose time has not. Each waker is among those woken as often as it had
-- an entry or was posted for a time that has come, and among those kept as often as for one that has
-- not: none is lost and none is added.
pub service-wakeup :
    (posted : List (ℕ × ℕ)) (times : WakeupTimes) (now : ℕ)
    → IsSorted times
    → IsSorted (service posted times)
      × (woken : List ℕ) × (kept : WakeupTimes) × (wakeup_if_neccessary now (service posted times)
          ≡ some (woken, kept))
      × (woken ≡ due now (service posted times))
      × (kept ≡ not_due now (service posted times))
      × ((w : ℕ)
          → (count w woken ≡ count w (due now times) + count w (posted_due now posted))
            × (count w (wakers_of kept)
                ≡ count w (wakers_of (not_due now times)) + count w (posted_later now posted)))
unfolding wakeup_if_neccessary
service-wakeup posted times now h =
    let sorted = service-IsSorted posted times h in
    (sorted, _, _, wakes now _ sorted, refl, refl, λ w. service-counts posted times now w)
