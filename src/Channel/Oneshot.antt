-- ===== src/Channel/Oneshot.antt =====
-- src/util/oneshot.rs: one value, sent once and received once.
use stream_os.Base.{
  ℕ, ◌≡◌, refl, ap, List, [], ◌∷◌, Option, none, some, Bool, true, false, ◌&&◌, if◌then◌else◌,
  Result, ok, err,
}

-- `Option::is_none`.
abbrev is_none {ℓ} : {A : Type ℓ} → Option A → Bool
is_none none = true
is_none (some a) = false

pub data AlreadyReceived : Type 0 where
  already_received : AlreadyReceived

module _ (T : Type 0) where
  pub record Inner : Type 0 where
    pub val : Option T
    pub is_set : Bool
    pub waker : Option ℕ

  unfoldable pub channel : Inner
  channel = record { val = none; is_set = false; waker = none }

  -- `Sender::send`, and the waker that it wakes; the assertion fails on a value that still waits.
  unfoldable pub send : T → Inner → Option (Inner × Option ℕ)
  send val inner =
      if is_none inner.val
      then some (record inner { val = some val; is_set = true }, inner.waker)
      else none

  -- A `poll` of `ReceiverWaiter` in a task with the given waker; `none` is `Poll::Pending`.
  unfoldable pub poll_receiver : ℕ → Inner → Inner × Option (Result T AlreadyReceived)
  poll_receiver waker inner =
      if inner.is_set && is_none inner.val
      then (record inner { waker = some waker }, some (err already_received))
      else elim inner.val [
        | some v ↦ (record { val = none; is_set = inner.is_set; waker = some waker }, some (ok v))
        | none ↦ (record inner { waker = some waker }, none)
      ]

  -- The answers of some polls, one after the other, and the state after them.
  unfoldable pub poll_all : List ℕ → Inner → Inner × List (Option (Result T AlreadyReceived))
  unfolding poll_receiver
  poll_all [] inner = (inner, [])
  poll_all (w ∷ ws) inner =
      let (after, answer) = poll_receiver w inner in
      let (last, answers) = poll_all ws after in (last, answer ∷ answers)

  abbrev pub repeated : {A : Type 0} → A → List ℕ → List A
  repeated a [] = []
  repeated a (w ∷ ws) = a ∷ repeated a ws

  abbrev pub last_waker : Option ℕ → List ℕ → Option ℕ
  last_waker k [] = k
  last_waker k (w ∷ ws) = last_waker (some w) ws

  poll_all-empty :
      (ws : List ℕ) (k : Option ℕ)
      → poll_all ws (record { val = none; is_set = false; waker = k })
        ≡ (record { val = none; is_set = false; waker = last_waker k ws }, repeated none ws)
  unfolding poll_all poll_receiver
  poll_all-empty [] k = refl
  poll_all-empty (w ∷ ws) k = rw (poll_all-empty ws (some w))

  poll_all-taken :
      (ws : List ℕ) (k : Option ℕ)
      → poll_all ws (record { val = none; is_set = true; waker = k }) ≡ (
        record { val = none; is_set = true; waker = last_waker k ws },
        repeated (some (err already_received)) ws,
      )
  unfolding poll_all poll_receiver
  poll_all-taken [] k = refl
  poll_all-taken (w ∷ ws) k = rw (poll_all-taken ws (some w))

  -- On a new channel every poll before the value is sent is pending. Sending then succeeds and wakes
  -- the task that polled last. The next poll receives the value, and every poll after it is told that
  -- the value has been received.
  polls-send-polls :
      (before : List ℕ) (v : T) (w : ℕ) (after : List ℕ)
      → (waiting : Inner) × (filled : Inner) × (poll_all before channel
          ≡ (waiting, repeated none before))
        × (send v waiting ≡ some (filled, last_waker none before))
        × ((poll_all (w ∷ after) filled).1
            ≡ some (ok v) ∷ repeated (some (err already_received)) after)
  unfolding channel send poll_all poll_receiver
  polls-send-polls before v w after = (
    _,
    _,
    poll_all-empty before none,
    refl,
    ap (λ t. some (ok v) ∷ t.1) (poll_all-taken after (some w)),
  )
