-- ===== src/Sleep/Kept.antt =====
-- Which wakers come from what was posted, and that none is lost.
use stream_os.Base.{
  ℕ, suc, ◌+◌, ◌≡◌, arith, List, [], ◌∷◌, ◌++◌, if◌then◌else◌, ltb, ==_iff, ◌==◌, Bool-cases, inl,
  inr,
}
use stream_os.Sleep.{WakeupTimes, post, service}

-- The wakers whose time has come, and the entries whose time has not.
abbrev pub due : ℕ → WakeupTimes → List ℕ
due now [] = []
due now ((time, wakers) ∷ rest) = if ltb now time then due now rest else wakers ++ due now rest

abbrev pub not_due : ℕ → WakeupTimes → WakeupTimes
not_due now [] = []
not_due now ((time, wakers) ∷ rest) =
    if ltb now time then (time, wakers) ∷ not_due now rest else not_due now rest

-- How often a waker is in a list, among some entries, and among what was posted for a time that has
-- come, or not.
abbrev pub count : ℕ → List ℕ → ℕ
count w [] = 0
count w (x ∷ xs) = if x == w then suc (count w xs) else count w xs

abbrev pub wakers_of : WakeupTimes → List ℕ
wakers_of [] = []
wakers_of ((time, wakers) ∷ rest) = wakers ++ wakers_of rest

abbrev pub posted_due : ℕ → List (ℕ × ℕ) → List ℕ
posted_due now [] = []
posted_due now ((time, waker) ∷ posted) =
    if ltb now time then posted_due now posted else waker ∷ posted_due now posted

abbrev pub posted_later : ℕ → List (ℕ × ℕ) → List ℕ
posted_later now [] = []
posted_later now ((time, waker) ∷ posted) =
    if ltb now time then waker ∷ posted_later now posted else posted_later now posted

count-append : (w : ℕ) (xs ys : List ℕ) → count w (xs ++ ys) ≡ count w xs + count w ys
count-append w [] ys = omega arith
count-append w (x ∷ xs) ys = ground (arith, count-append w xs ys)

append-counts :
    (w waker : ℕ) (ws rest : List ℕ)
    → count w ((ws ++ (waker ∷ [])) ++ rest) ≡ count w (ws ++ rest) + count w (waker ∷ [])
append-counts w waker ws rest =
    rw
      (
        count-append w (ws ++ (waker ∷ [])) rest,
        count-append w ws (waker ∷ []),
        count-append w ws rest,
      )
      (omega arith)

cons-counts : (w waker : ℕ) (ws : List ℕ) → count w (waker ∷ ws) ≡ count w ws + count w (waker ∷ [])
cons-counts w waker ws = ground arith

insert-counts :
    (w n : ℕ) (ws xs ys : List ℕ)
    → count w ys ≡ count w xs + n
    → count w (ws ++ ys) ≡ count w (ws ++ xs) + n
insert-counts w n ws xs ys h = rw (count-append w ws xs, count-append w ws ys) (omega arith)

-- Posting adds its waker to those of its time, and no other.
post-due :
    (now w time waker : ℕ) (times : WakeupTimes)
    → count w (due now (post time waker times))
      ≡ count w (due now times) + (if ltb now time then 0 else count w (waker ∷ []))
unfolding post
post-due now w time waker [] = ground arith
post-due now w time waker ((t, ws) ∷ rest) = elim (Bool-cases (t == time)) [
  | inl same ↦
      let e : t ≡ time = (==_iff t time).0 same in
      rw (same, ← e)
        (elim (Bool-cases (ltb now t)) [
          | inl later ↦ rw later (omega arith)
          | inr past ↦ rw past (append-counts w waker ws (due now rest))
        ])
  | inr other ↦ rw other (elim (Bool-cases (ltb time t)) [
    | inl before ↦ rw before (elim (Bool-cases (ltb now time)) [
      | inl later ↦ rw later (omega arith)
      | inr past ↦ rw past (cons-counts w waker (due now ((t, ws) ∷ rest)))
    ])
    | inr after ↦ rw after (elim (Bool-cases (ltb now t)) [
      | inl later ↦ rw later (post-due now w time waker rest)
      | inr past ↦ rw past (insert-counts w _ ws _ _ (post-due now w time waker rest))
    ])
  ])
]

post-not_due :
    (now w time waker : ℕ) (times : WakeupTimes)
    → count w (wakers_of (not_due now (post time waker times)))
      ≡ count w (wakers_of (not_due now times)) + (if ltb now time then count w (waker ∷ []) else 0)
unfolding post
post-not_due now w time waker [] = ground arith
post-not_due now w time waker ((t, ws) ∷ rest) = elim (Bool-cases (t == time)) [
  | inl same ↦
      let e : t ≡ time = (==_iff t time).0 same in
      rw (same, ← e)
        (elim (Bool-cases (ltb now t)) [
          | inl later ↦ rw later (append-counts w waker ws (wakers_of (not_due now rest)))
          | inr past ↦ rw past (omega arith)
        ])
  | inr other ↦ rw other (elim (Bool-cases (ltb time t)) [
    | inl before ↦ rw before (elim (Bool-cases (ltb now time)) [
      | inl later ↦ rw later (cons-counts w waker (wakers_of (not_due now ((t, ws) ∷ rest))))
      | inr past ↦ rw past (omega arith)
    ])
    | inr after ↦ rw after (elim (Bool-cases (ltb now t)) [
      | inl later ↦ rw later (insert-counts w _ ws _ _ (post-not_due now w time waker rest))
      | inr past ↦ rw past (post-not_due now w time waker rest)
    ])
  ])
]

-- What was posted before counts, and all that was posted since.
pub service-counts :
    (posted : List (ℕ × ℕ)) (times : WakeupTimes) (now w : ℕ)
    → (count w (due now (service posted times))
        ≡ count w (due now times) + count w (posted_due now posted))
      × (count w (wakers_of (not_due now (service posted times)))
          ≡ count w (wakers_of (not_due now times)) + count w (posted_later now posted))
unfolding service
service-counts [] times now w = (omega arith, omega arith)
service-counts ((time, waker) ∷ posted) times now w =
    let (a, b) = service-counts posted (post time waker times) now w in
    (
      ground (arith, a, post-due now w time waker times),
      ground (arith, b, post-not_due now w time waker times),
    )
