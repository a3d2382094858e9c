-- ===== src/LockFreeQueue/Index.antt =====
-- The indices of src/util/lock_free_queue.rs, which wrap around.
use stream_os.Base.{
  ℕ, zero, suc, ◌+◌, ◌-◌, ◌%◌, ◌^◌, ◌<◌, ◌≤◌, ◌≡◌, ◌≢◌, refl, arith, List, [], ◌∷◌, ◌++◌, none,
  some, true, false, ◌==◌, ltb, if◌then◌else◌, usize, Bool-cases, inl, inr, length, get_elem?,
}
use native.Mathlib.Nat.{mod-eq_of_lt, mod_self}
use stream_os.LockFreeQueue.{wrapping_increment, next_or_full}

-- How far an index is behind the head, in the direction of the queue.
abbrev pub offset : ℕ → ℕ → ℕ → ℕ
offset n head i = if ltb i head then i + n - head else i - head

-- Where the next element is put: behind the `k` elements from `head` on.
abbrev pub end_of : ℕ → ℕ → ℕ → ℕ
end_of n head k = if k == n then n else if ltb (head + k) n then head + k else head + k - n

pub wrapping_increment-lt :
    (i n : ℕ) → i < n → n < 2 ^ 32 → wrapping_increment i n ≡ (if i + 1 == n then 0 else i + 1)
unfolding wrapping_increment
wrapping_increment-lt i n h k = rw (in_range i n h k) (elim (Bool-cases (i + 1 == n)) [
  | inl e ↦ rw e (last i n (ground arith))
  | inr e ↦ rw e (mod-eq_of_lt (ground arith))
])
  where
    in_range : (i n : ℕ) → i < n → n < 2 ^ 32 → usize (i + 1) ≡ i + 1
    in_range i n h k = omega arith

    last : (i n : ℕ) → i + 1 ≡ n → (i + 1) % n ≡ 0
    last i n e = rw e (mod_self n)

pub get_elem?-append :
    {A : Type 0} (xs : List A) (a : A) (i : ℕ)
    → get_elem? (xs ++ (a ∷ [])) i ≡ (if i == length xs then some a else get_elem? xs i)
get_elem?-append [] a zero = refl
get_elem?-append [] a (suc i) = ground arith
get_elem?-append (x ∷ xs) a zero = ground arith
get_elem?-append (x ∷ xs) a (suc i) = ground (arith, get_elem?-append xs a i)

pub next_or_full-end :
    (n head k : ℕ)
    → head < n
    → k < n
    → n < 2 ^ 32
    → next_or_full (end_of n head k) n head ≡ end_of n head (k + 1)
unfolding next_or_full
next_or_full-end n head k h l b = ground (arith, wrapping_increment-lt (end_of n head k) n)

-- An index is the end exactly if it is as far from the head as the queue is long.
pub end_iff :
    (n head k i : ℕ) → head < n → k < n → i < n → (i == end_of n head k) ≡ (offset n head i == k)
end_iff n head k i h l b = ground arith

pub end_lt : (n head k : ℕ) → head < n → k < n → end_of n head k < n
end_lt n head k h l = ground arith

pub end_last : (n head k : ℕ) → (k + 1 == n) ≡ true → end_of n head (k + 1) ≡ n
end_last n head k e = ground arith

-- The slot behind a new element that does not fill the buffer.
pub end_free :
    (n head k : ℕ)
    → head < n
    → k < n
    → (k + 1 == n) ≡ false
    → (end_of n head (k + 1) < n)
      × (end_of n head (k + 1) ≢ end_of n head k)
      × (ltb (offset n head (end_of n head (k + 1))) k ≡ false)
end_free n head k h l e = (ground arith, (λ same. ground arith), ground arith)

-- The index behind the head, in a buffer with a slot.
abbrev pub behind : ℕ → ℕ → ℕ
behind n head = if head + 1 == n then 0 else head + 1

pub behind_lt : (n head : ℕ) → head < n → behind n head < n
behind_lt n head h = ground arith

pub end-behind_full :
    (n head k : ℕ) → head < n → (suc k == n) ≡ true → head ≡ end_of n (behind n head) k
end-behind_full n head k h e = ground arith

pub end-behind_more :
    (n head k : ℕ)
    → head < n
    → suc k ≤ n
    → (suc k == n) ≡ false
    → end_of n head (suc k) ≡ end_of n (behind n head) k
end-behind_more n head k h l e = ground arith

-- Every index but the popped one comes nearer to the head by one.
pub offset-behind :
    (n head i : ℕ)
    → head < n
    → i < n
    → ((i == head) ≡ true → (offset n (behind n head) i ≡ n - 1))
      × ((i == head) ≡ false → offset n head i ≡ suc (offset n (behind n head) i))
offset-behind n head i h l = ((λ e. ground arith), λ e. ground arith)

pub offset_self : (n head : ℕ) → offset n head head ≡ 0
offset_self n head = ground arith

pub end_full : (n head k : ℕ) → (suc k == n) ≡ true → (end_of n head (suc k) == n) ≡ true
end_full n head k e = ground arith

pub end_not_full :
    (n head k : ℕ)
    → head < n
    → suc k ≤ n
    → (suc k == n) ≡ false
    → (end_of n head (suc k) == n) ≡ false
end_not_full n head k h l e = ground arith

pub end-ne-head : (n head k : ℕ) → head < n → suc k ≤ n → (head == end_of n head (suc k)) ≡ false
end-ne-head n head k h l = ground arith

pub get_elem?-none : {A : Type 0} (xs : List A) (i : ℕ) → length xs ≤ i → get_elem? xs i ≡ none
get_elem?-none [] i h = refl
get_elem?-none (x ∷ xs) zero h = absurd (omega arith)
get_elem?-none (x ∷ xs) (suc i) h = get_elem?-none xs i (omega arith)
