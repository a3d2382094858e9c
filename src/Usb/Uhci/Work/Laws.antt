-- ===== src/Usb/Uhci/Work/Laws.antt =====
-- Work is numbered, queued and handed back in order.
use stream_os.Base.{
  ℕ, suc, ◌+◌, ◌^◌, ◌<◌, ◌≤◌, ◌≡◌, refl, ap, ◌∙◌, sym, arith, List, [], ◌∷◌, ◌++◌, append-nil,
  append_assoc, some, ◌>>=◌, Bool, true, false, if◌then◌else◌, ◌==◌, ltb, map, length, u64,
}
use stream_os.BitManipulation.{get_bit}
use stream_os.Usb.Uhci.TransferDescriptor.{Storage}
use stream_os.Usb.Uhci.Work.{
  Bufs, insert, extend, numbers, get, remove, any_active, take_all, push, pending, ready, poll,
}

-- Every number in use is below `n`.
abbrev pub AreBelow : ℕ → Bufs → Type 0
AreBelow n [] = Unit {0}
AreBelow n ((k, s) ∷ bufs) = (k < n) × AreBelow n bufs

-- Storages under the numbers from `id` on.
abbrev pub numbered : ℕ → List Storage → Bufs
numbered id [] = []
numbered id (s ∷ ss) = (id, s) ∷ numbered (id + 1) ss

insert-AreBelow :
    (id : ℕ) (s : Storage) (bufs : Bufs)
    → AreBelow id bufs
    → insert id s bufs ≡ bufs ++ ((id, s) ∷ [])
unfolding insert
insert-AreBelow id s [] h = refl
insert-AreBelow id s ((k, t) ∷ bufs) h =
    rw (not_same h.0, not_before h.0, insert-AreBelow id s bufs h.1) refl
  where
    not_same : k < id → (id == k) ≡ false
    not_same h = ground arith

    not_before : k < id → ltb id k ≡ false
    not_before h = ground arith

AreBelow-weaken : (n m : ℕ) (bufs : Bufs) → n ≤ m → AreBelow n bufs → AreBelow m bufs
AreBelow-weaken n m [] h k = tt
AreBelow-weaken n m (entry ∷ bufs) h k = (omega arith, AreBelow-weaken n m bufs h k.1)

AreBelow-append :
    (n : ℕ) (bufs more : Bufs) → AreBelow n bufs → AreBelow n more → AreBelow n (bufs ++ more)
AreBelow-append n [] more h k = k
AreBelow-append n (entry ∷ bufs) more h k = (h.0, AreBelow-append n bufs more h.1 k)

-- Storages with fresh numbers, that do not overflow, are put behind the ones in the map.
pub extend-numbered :
    (id : ℕ) (ss : List Storage) (bufs : Bufs)
    → AreBelow id bufs
    → id + length ss ≤ 2 ^ 64
    → extend (numbers id ss) ss bufs ≡ bufs ++ numbered id ss
unfolding extend
extend-numbered id [] bufs h k = sym (append-nil bufs)
extend-numbered id (s ∷ ss) bufs h k =
    rw (fits, insert-AreBelow id s bufs h)
      (extend-numbered (id + 1) ss (bufs ++ ((id, s) ∷ []))
          (AreBelow-append (id + 1) bufs ((id, s) ∷ [])
            (AreBelow-weaken id (id + 1) bufs (omega arith) h) (omega arith, tt))
          (omega arith)
        ∙ append_assoc bufs ((id, s) ∷ []) (numbered (id + 1) ss))
  where
    fits : u64 id ≡ id
    fits = omega arith

numbered-AreBelow :
    (id n : ℕ) (ss : List Storage) → id + length ss ≤ n → AreBelow n (numbered id ss)
numbered-AreBelow id n [] h = tt
numbered-AreBelow id n (s ∷ ss) h = (omega arith, numbered-AreBelow (id + 1) n ss (omega arith))

pub AreBelow-numbered :
    (id : ℕ) (ss : List Storage) (bufs : Bufs)
    → AreBelow id bufs
    → AreBelow (id + length ss) (bufs ++ numbered id ss)
AreBelow-numbered id ss bufs h =
    AreBelow-append (id + length ss) bufs (numbered id ss)
      (AreBelow-weaken id (id + length ss) bufs (omega arith) h)
      (numbered-AreBelow id (id + length ss) ss (omega arith))

-- Whether some storage is not done.
abbrev pub some_active : List Storage → Bool
some_active [] = false
some_active (s ∷ ss) = if get_bit 32 23 s.descriptor.control then true else some_active ss

get-behind :
    (id : ℕ) (s : Storage) (bufs more : Bufs)
    → AreBelow id bufs
    → get id (bufs ++ ((id, s) ∷ more)) ≡ some s
unfolding get
get-behind id s [] more h = ground arith
get-behind id s ((k, t) ∷ bufs) more h = rw (get-behind id s bufs more h.1) (ground arith)

remove-behind :
    (id : ℕ) (s : Storage) (bufs more : Bufs)
    → AreBelow id bufs
    → remove id (bufs ++ ((id, s) ∷ more)) ≡ some (s, bufs ++ more)
unfolding remove
remove-behind id s [] more h = ground arith
remove-behind id s ((k, t) ∷ bufs) more h = rw (remove-behind id s bufs more h.1) (ground arith)

fits_word : (id n : ℕ) → id + suc n ≤ 2 ^ 64 → u64 id ≡ id
fits_word id n h = omega arith

shift_in :
    (id : ℕ) (s : Storage) (ss : List Storage) (bufs : Bufs)
    → bufs ++ numbered id (s ∷ ss) ≡ (bufs ++ ((id, s) ∷ [])) ++ numbered (id + 1) ss
shift_in id s ss bufs = sym (append_assoc bufs ((id, s) ∷ []) (numbered (id + 1) ss))

AreBelow-next :
    (id : ℕ) (s : Storage) (bufs : Bufs)
    → AreBelow id bufs
    → AreBelow (id + 1) (bufs ++ ((id, s) ∷ []))
AreBelow-next id s bufs h =
    AreBelow-append (id + 1) bufs ((id, s) ∷ []) (AreBelow-weaken id (id + 1) bufs (omega arith) h)
      (omega arith, tt)

any_active-numbered :
    (id : ℕ) (ss : List Storage) (bufs : Bufs)
    → AreBelow id bufs
    → id + length ss ≤ 2 ^ 64
    → any_active (numbers id ss) (bufs ++ numbered id ss) ≡ some (some_active ss)
unfolding any_active
any_active-numbered id [] bufs h k = refl
any_active-numbered id (s ∷ ss) bufs h k =
    rw (fits_word id (length ss) k, get-behind id s bufs (numbered (id + 1) ss) h)
      (ap (λ o. if get_bit 32 23 s.descriptor.control then some true else o)
          (ap (any_active (numbers (id + 1) ss)) (shift_in id s ss bufs)
            ∙ any_active-numbered (id + 1) ss (bufs ++ ((id, s) ∷ [])) (AreBelow-next id s bufs h)
                (omega arith))
        ∙ spread (get_bit 32 23 s.descriptor.control))
  where
    spread :
        (b : Bool)
        → (if b then some true else some (some_active ss))
          ≡ some (if b then true else some_active ss)
    spread true = refl
    spread false = refl

take_all-numbered :
    (id : ℕ) (ss : List Storage) (bufs : Bufs)
    → AreBelow id bufs
    → id + length ss ≤ 2 ^ 64
    → take_all (numbers id ss) (bufs ++ numbered id ss) ≡ some (map (λ s. s.buf) ss, bufs)
unfolding take_all
take_all-numbered id [] bufs h k = ap (λ t. some ([], t)) (append-nil bufs)
take_all-numbered id (s ∷ ss) bufs h k =
    rw
      (
        fits_word id (length ss) k,
        remove-behind id s bufs (numbered (id + 1) ss) h,
        take_all-numbered (id + 1) ss bufs (AreBelow-weaken id (id + 1) bufs (omega arith) h)
            (omega arith),
      )
      refl

-- While the controller is not done with some descriptor of the work, a poll changes nothing but the
-- queue of wakers, which gets the task's waker (and a full queue is a panic); once it is done with
-- all, whatever it wrote to them, a poll hands back the buffers in the order of the packets, and
-- takes exactly them out of the map.
pub poll-numbered :
    (id : ℕ) (ss : List Storage) (bufs : Bufs) (waker : ℕ) (wakers : List ℕ)
    → AreBelow id bufs
    → id + length ss ≤ 2 ^ 64
    → poll (numbers id ss) waker (bufs ++ numbered id ss) wakers ≡ (
        if some_active ss
        then (push waker wakers >>= λ queued. some (bufs ++ numbered id ss, queued, pending))
        else some (bufs, wakers, ready (map (λ s. s.buf) ss)))
unfolding poll
poll-numbered id ss bufs waker wakers h k =
    rw (any_active-numbered id ss bufs h k, take_all-numbered id ss bufs h k) refl
