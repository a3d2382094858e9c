-- ===== src/Futures.antt =====
-- src/future.rs, the futures that are made of others. A future is a state with a poll, which gives the
-- new state and, if it is ready, its result.
use stream_os.Base.{ℕ, zero, suc, ◌≡◌, refl, ◌∙◌, arith, Option, none, some, ◌>>=◌}
use mathlib.Core.Option

module _ (F1 F2 R1 R2 : Type 0) (poll1 : F1 → F1 × Option R1) (poll2 : F2 → F2 × Option R2) where
  pub data Either : Type 0 where
    left : R1 → F2 → Either
    right : R2 → F1 → Either

  pub record Select : Type 0 where
    pub f1 : Option F1
    pub f2 : Option F2

  abbrev pub select : F1 → F2 → Select
  select f1 f2 = record { f1 = some f1; f2 = some f2 }

  abbrev pub poll_second : F1 → F2 × Option R2 → Select × Option Either
  poll_second f1 (f2, none) = (record { f1 = some f1; f2 = some f2 }, none)
  poll_second f1 (f2, some ret) = (record { f1 = none; f2 = some f2 }, some (right ret f1))

  abbrev pub poll_first : Option F2 → F1 × Option R1 → Option (Select × Option Either)
  poll_first other (f1, some ret) =
      Option.map (λ f2. (record { f1 = some f1; f2 = none }, some (left ret f2))) other
  poll_first other (f1, none) = Option.map (λ f2. poll_second f1 (poll2 f2)) other

  -- `Select::poll`; the outer `none` is a panic, the inner one `Poll::Pending`.
  unfoldable pub poll_select : Select → Option (Select × Option Either)
  poll_select s = s.f1 >>= λ f1. poll_first s.f2 (poll1 f1)

  -- The result, if there is one, of so many polls.
  abbrev pub polls_after :
      (Select → Option (Option Either)) → Select × Option Either → Option (Option Either)
  polls_after again (s, none) = again s
  polls_after again (s, some ret) = some (some ret)

  unfoldable pub polls : ℕ → Select → Option (Option Either)
  unfolding poll_select
  polls zero s = some none
  polls (suc n) s = poll_select s >>= polls_after (polls n)

  -- A future that is pending in so many polls, and is in another state after them.
  abbrev pub Waits {ℓ} : {F R : Type ℓ} → (F → F × Option R) → ℕ → F → F → Type ℓ
  Waits poll zero f g = f ≡ g
  Waits poll (suc n) f g = ((poll f).1 ≡ none) × Waits poll n (poll f).0 g

  -- The step of a poll in which both are pending.
  both-pending :
      (n : ℕ) (f1 : F1) (f2 : F2)
      → (poll1 f1).1 ≡ none
      → (poll2 f2).1 ≡ none
      → polls (suc n) (select f1 f2) ≡ polls n (select (poll1 f1).0 (poll2 f2).0)
  unfolding polls poll_select
  both-pending n f1 f2 p q = first (poll1 f1) p
    where
      second :
          (f : F1) (r : F2 × Option R2)
          → r.1 ≡ none
          → polls_after (polls n) (poll_second f r) ≡ polls n (select f r.0)
      second f (g, none) e = refl
      second f (g, some ret) e = cc

      first :
          (r : F1 × Option R1)
          → r.1 ≡ none
          → (poll_first (some f2) r >>= polls_after (polls n)) ≡ polls n (select r.0 (poll2 f2).0)
      first (g, none) e = second g (poll2 f2) q
      first (g, some ret) e = cc

  -- If the first future is ready in some poll, and the second one was in none before it, the result is
  -- that of the first one, with the second one as its polls left it.
  select-left :
      (n : ℕ) (f1 g1 : F1) (f2 g2 : F2) (ret : R1)
      → Waits poll1 n f1 g1
      → Waits poll2 n f2 g2
      → (poll1 g1).1 ≡ some ret
      → polls (suc n) (select f1 f2) ≡ some (some (left ret g2))
  unfolding polls poll_select
  select-left zero f1 g1 f2 g2 ret w1 w2 e = rw (w1, w2) (first (poll1 g1) e)
    where
      first :
          (r : F1 × Option R1)
          → r.1 ≡ some ret
          → (poll_first (some g2) r >>= polls_after (polls zero)) ≡ some (some (left ret g2))
      first (g, none) e = cc
      first (g, some v) e = ground arith
  select-left (suc n) f1 g1 f2 g2 ret w1 w2 e =
      unfold polls in
      both-pending (suc n) f1 f2 w1.0 w2.0
      ∙ select-left n (poll1 f1).0 g1 (poll2 f2).0 g2 ret w1.1 w2.1 e

  -- If the second future is ready in some poll in which the first one is pending, and none was ready
  -- before, the result is that of the second one, with the first one as its polls left it.
  select-right :
      (n : ℕ) (f1 g1 : F1) (f2 g2 : F2) (ret : R2)
      → Waits poll1 n f1 g1
      → Waits poll2 n f2 g2
      → (poll1 g1).1 ≡ none
      → (poll2 g2).1 ≡ some ret
      → polls (suc n) (select f1 f2) ≡ some (some (right ret (poll1 g1).0))
  unfolding polls poll_select
  select-right zero f1 g1 f2 g2 ret w1 w2 e d = rw (w1, w2) (first (poll1 g1) e)
    where
      second :
          (f : F1) (r : F2 × Option R2)
          → r.1 ≡ some ret
          → polls_after (polls zero) (poll_second f r) ≡ some (some (right ret f))
      second f (g, none) e = cc
      second f (g, some v) e = ground arith

      first :
          (r : F1 × Option R1)
          → r.1 ≡ none
          → (poll_first (some g2) r >>= polls_after (polls zero)) ≡ some (some (right ret r.0))
      first (g, none) e = second g (poll2 g2) d
      first (g, some v) e = cc
  select-right (suc n) f1 g1 f2 g2 ret w1 w2 e d =
      unfold polls in
      both-pending (suc n) f1 f2 w1.0 w2.0
      ∙ select-right n (poll1 f1).0 g1 (poll2 f2).0 g2 ret w1.1 w2.1 e d

-- `PollImmediate::poll`: ready after one poll, with the result if there is one; a second poll panics.
unfoldable pub poll_immediate :
    {F R : Type 0} → (F → F × Option R) → Option F → Option (Option F × Option R)
poll_immediate poll none = none
poll_immediate poll (some f) = some (none, (poll f).1)
