-- ===== src/Channel/Queue.antt =====
-- src/util/async_channel.rs: a queue without a bound, and the waker of its receiver.
use stream_os.Base.{
  ℕ, ◌≡◌, refl, sym, ap, ◌∙◌, List, [], ◌∷◌, ◌++◌, append-nil, append_assoc, Option, none, some,
}

module _ (T : Type 0) where
  pub record Inner : Type 0 where
    pub queue : List T
    pub waker : Option ℕ

  unfoldable pub channel : Inner
  channel = record { queue = []; waker = none }

  -- `Sender::send`, and the waker that it wakes.
  unfoldable pub send : T → Inner → Inner × Option ℕ
  send val inner = (record inner { queue = inner.queue ++ (val ∷ []) }, inner.waker)

  -- A `poll` of `ReceiverWaiter` in a task with the given waker; `none` is `Poll::Pending`.
  unfoldable pub poll_receiver : ℕ → Inner → Inner × Option T
  poll_receiver waker inner = elim inner.queue [
    | [] ↦ (record { queue = []; waker = some waker }, none)
    | v ∷ rest ↦ (record { queue = rest; waker = some waker }, some v)
  ]

  pub data Step : Type 0 where
    sends : T → Step
    polls : ℕ → Step

  -- The values sent by some steps, and those received.
  abbrev pub sent : List Step → List T
  sent [] = []
  sent (sends v ∷ steps) = v ∷ sent steps
  sent (polls w ∷ steps) = sent steps

  abbrev pub keep : Option T → List T → List T
  keep none vs = vs
  keep (some v) vs = v ∷ vs

  -- The state after some steps, and the values received in them.
  unfoldable pub run : List Step → Inner → Inner × List T
  unfolding send poll_receiver
  run [] inner = (inner, [])
  run (sends v ∷ steps) inner = run steps (send v inner).0
  run (polls w ∷ steps) inner =
      let (after, got) = poll_receiver w inner in
      let (last, values) = run steps after in (last, keep got values)

  abbrev Balances : List Step → Inner → Type 0
  unfolding run
  Balances steps inner =
      (run steps inner).1 ++ (run steps inner).0.queue ≡ inner.queue ++ sent steps

  polls-balance :
      (w : ℕ) (steps : List Step) (q : List T) (k : Option ℕ)
      → ((inner : Inner) → Balances steps inner)
      → Balances (polls w ∷ steps) (record { queue = q; waker = k })
  unfolding run poll_receiver
  polls-balance w steps [] k rest = rest (record { queue = []; waker = some w })
  polls-balance w steps (v ∷ q) k rest =
      ap (λ t. v ∷ t) (rest (record { queue = q; waker = some w }))

  -- Over any sequence of sends and polls, the values received and then those still queued are the
  -- ones queued at first and then those sent, in this order: nothing is lost, doubled or reordered.
  pub run-sent :
      (steps : List Step) (inner : Inner)
      → (run steps inner).1 ++ (run steps inner).0.queue ≡ inner.queue ++ sent steps
  unfolding run send
  run-sent [] inner = sym (append-nil inner.queue)
  run-sent (sends v ∷ steps) inner =
      run-sent steps (send v inner).0 ∙ append_assoc inner.queue (v ∷ []) (sent steps)
  run-sent (polls w ∷ steps) inner =
      polls-balance w steps inner.queue inner.waker (λ next. run-sent steps next)

  -- A receiver that found nothing is woken by the next value that is sent, and its next poll receives
  -- that value, and leaves nothing behind.
  pub poll-send-poll :
      (w u : ℕ) (v : T) (inner : Inner)
      → inner.queue ≡ []
      → ((poll_receiver w inner).1 ≡ none)
        × ((send v (poll_receiver w inner).0).1 ≡ some w)
        × (poll_receiver u (send v (poll_receiver w inner).0).0
            ≡ (record { queue = []; waker = some u }, some v))
  unfolding send poll_receiver
  poll-send-poll w u v inner e = rw e (refl, refl, refl)
