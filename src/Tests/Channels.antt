-- ===== src/Tests/Channels.antt =====
-- Both kinds of channel, and wakeups.
use stream_os.Base.{arith, ℕ, ◌+◌, ◌≡◌, refl, List, [], ◌∷◌, ◌++◌, none, some}
use stream_os.Channel.Queue
use stream_os.Sleep.{WakeupTimes, service, post, last_idx, pop_first, wakeup_if_neccessary}
use stream_os.Sleep.Kept.{due, not_due, count, wakers_of}
use stream_os.Sleep.Laws.{IsSorted, service-wakeup}
use stream_os.Channel.Queue.{Step, sends, polls, run, sent, run-sent, poll-send-poll}

abbrev steps : List (Step ℕ)
steps = polls 9 ∷ sends 5 ∷ sends 6 ∷ polls 9 ∷ []

abbrev empty_inner : Queue.Inner ℕ
empty_inner = record { queue = []; waker = none }

run-sent_example : (run ℕ steps empty_inner).1 ++ (run ℕ steps empty_inner).0.queue ≡ 5 ∷ 6 ∷ []
run-sent_example = run-sent ℕ steps empty_inner

abbrev posted_times : WakeupTimes
posted_times = (10, 1 ∷ []) ∷ (30, 2 ∷ []) ∷ []

service-wakeup_example :
    let times = service ((20, 3) ∷ (10, 4) ∷ []) posted_times in
    IsSorted times
    × (woken : List ℕ) × (kept : WakeupTimes) × (wakeup_if_neccessary 20 times ≡ some (woken, kept))
    × (woken ≡ due 20 times)
    × (kept ≡ not_due 20 times)
    × ((w : ℕ)
        → (count w woken ≡ count w (1 ∷ []) + count w (3 ∷ 4 ∷ []))
          × (count w (wakers_of kept) ≡ count w (2 ∷ []) + 0))
service-wakeup_example =
    service-wakeup ((20, 3) ∷ (10, 4) ∷ []) posted_times 20 ((omega arith, tt), (tt, tt))

wakeup_run :
    wakeup_if_neccessary 20 (service ((20, 3) ∷ (10, 4) ∷ []) posted_times)
    ≡ some (1 ∷ 4 ∷ 3 ∷ [], (30, 2 ∷ []) ∷ [])
unfolding service post wakeup_if_neccessary pop_first last_idx
wakeup_run = refl
