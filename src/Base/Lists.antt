-- ===== src/Base/Lists.antt =====
-- Vectors and slices: lists measured and indexed by native numbers.
use Prim.Native.Nat.{ℕ, zero, suc, ◌+◌, ◌-◌, ◌≤◌, ◌<◌, min}
use mathlib.Core.Path.{◌≡◌, refl, ap, ◌∙◌}
use mathlib.Core.Logic.{◌⊎◌, inl, inr}
use mathlib.Core.Option
use mathlib.Core.List.{List, [], ◌∷◌, ◌++◌, append-nil}
use mathlib.Core.Option.{Option, none, some}
use native.Mathlib.Omega.{arith}
use stream_os.Base.Tests.{leb, ltb, ◌>>=◌, if◌then◌else◌, Bool-cases}

module _ {ℓ} {A : Type ℓ} where
  abbrev pub length : List A → ℕ
  length [] = 0
  length (x ∷ xs) = suc (length xs)

  -- `none` is the panic of an index out of range.
  abbrev pub get_elem? : List A → ℕ → Option A
  get_elem? [] i = none
  get_elem? (x ∷ xs) zero = some x
  get_elem? (x ∷ xs) (suc i) = get_elem? xs i

  abbrev pub set : List A → ℕ → A → List A
  set [] i v = []
  set (x ∷ xs) zero v = v ∷ xs
  set (x ∷ xs) (suc i) v = x ∷ set xs i v

  abbrev pub take : ℕ → List A → List A
  take zero xs = []
  take (suc n) [] = []
  take (suc n) (x ∷ xs) = x ∷ take n xs

  abbrev pub drop : ℕ → List A → List A
  drop zero xs = xs
  drop (suc n) [] = []
  drop (suc n) (x ∷ xs) = drop n xs

  abbrev pub replicate : ℕ → A → List A
  replicate zero a = []
  replicate (suc n) a = a ∷ replicate n a

module _ {ℓ} {A : Type ℓ} where
  abbrev pub take? : ℕ → List A → Option (List A)
  take? zero xs = some []
  take? (suc n) [] = none
  take? (suc n) (x ∷ xs) = Option.map (λ ys. x ∷ ys) (take? n xs)

  abbrev pub drop? : ℕ → List A → Option (List A)
  drop? zero xs = some xs
  drop? (suc n) [] = none
  drop? (suc n) (x ∷ xs) = drop? n xs

  -- `&xs[start..end]`, which panics unless `start <= end <= len`.
  abbrev pub slice : List A → ℕ → ℕ → Option (List A)
  slice xs start end =
      if leb start end then drop? start xs >>= (λ rest. take? (end - start) rest) else none

  -- `&xs[start..]`.
  abbrev pub slice_from : List A → ℕ → Option (List A)
  slice_from xs start = drop? start xs

  pub take?-some : (n : ℕ) (xs : List A) → n ≤ length xs → take? n xs ≡ some (take n xs)
  take?-some zero xs h = refl
  take?-some (suc n) [] h = absurd (omega arith)
  take?-some (suc n) (x ∷ xs) h = rw (take?-some n xs (omega arith))

  pub take?-none : (n : ℕ) (xs : List A) → length xs < n → take? n xs ≡ none
  take?-none zero xs h = absurd (omega arith)
  take?-none (suc n) [] h = refl
  take?-none (suc n) (x ∷ xs) h = rw (take?-none n xs (omega arith))

  pub drop?-some : (n : ℕ) (xs : List A) → n ≤ length xs → drop? n xs ≡ some (drop n xs)
  drop?-some zero xs h = refl
  drop?-some (suc n) [] h = absurd (omega arith)
  drop?-some (suc n) (x ∷ xs) h = drop?-some n xs (omega arith)

  pub drop?-none : (n : ℕ) (xs : List A) → length xs < n → drop? n xs ≡ none
  drop?-none zero xs h = absurd (omega arith)
  drop?-none (suc n) [] h = refl
  drop?-none (suc n) (x ∷ xs) h = drop?-none n xs (omega arith)

  pub length-append : (xs ys : List A) → length (xs ++ ys) ≡ length xs + length ys
  length-append [] ys = omega arith
  length-append (x ∷ xs) ys = omega (arith, length-append xs ys)

  pub length-set : (xs : List A) (i : ℕ) (v : A) → length (set xs i v) ≡ length xs
  length-set [] i v = refl
  length-set (x ∷ xs) zero v = refl
  length-set (x ∷ xs) (suc i) v = ap suc (length-set xs i v)

  pub length-take : (n : ℕ) (xs : List A) → length (take n xs) ≡ min n (length xs)
  length-take zero xs = omega arith
  length-take (suc n) [] = omega arith
  length-take (suc n) (x ∷ xs) = omega (arith, length-take n xs)

  pub length-drop : (n : ℕ) (xs : List A) → length (drop n xs) ≡ length xs - n
  length-drop zero xs = omega arith
  length-drop (suc n) [] = omega arith
  length-drop (suc n) (x ∷ xs) = omega (arith, length-drop n xs)

  pub length-replicate : (n : ℕ) (a : A) → length (replicate n a) ≡ n
  length-replicate zero a = refl
  length-replicate (suc n) a = ap suc (length-replicate n a)

  pub take-append_length : (n : ℕ) (xs ys : List A) → length xs ≡ n → take n (xs ++ ys) ≡ xs
  take-append_length zero [] ys h = refl
  take-append_length zero (x ∷ xs) ys h = absurd (omega arith)
  take-append_length (suc n) [] ys h = absurd (omega arith)
  take-append_length (suc n) (x ∷ xs) ys h =
      ap (λ t. x ∷ t) (take-append_length n xs ys (omega arith))

  pub drop-append_length : (n : ℕ) (xs ys : List A) → length xs ≡ n → drop n (xs ++ ys) ≡ ys
  drop-append_length zero [] ys h = refl
  drop-append_length zero (x ∷ xs) ys h = absurd (omega arith)
  drop-append_length (suc n) [] ys h = absurd (omega arith)
  drop-append_length (suc n) (x ∷ xs) ys h = drop-append_length n xs ys (omega arith)

  pub take-length : (n : ℕ) (xs : List A) → length xs ≤ n → take n xs ≡ xs
  take-length zero [] h = refl
  take-length zero (x ∷ xs) h = absurd (omega arith)
  take-length (suc n) [] h = refl
  take-length (suc n) (x ∷ xs) h = ap (λ t. x ∷ t) (take-length n xs (omega arith))

  pub take-append-drop : (n : ℕ) (xs : List A) → take n xs ++ drop n xs ≡ xs
  take-append-drop zero xs = refl
  take-append-drop (suc n) [] = refl
  take-append-drop (suc n) (x ∷ xs) = ap (λ t. x ∷ t) (take-append-drop n xs)

  pub slice-some :
      (xs : List A) (start end : ℕ)
      → start ≤ end
      → end ≤ length xs
      → slice xs start end ≡ some (take (end - start) (drop start xs))
  slice-some xs start end h k =
      ground
        (arith, drop?-some start xs, take?-some (end - start) (drop start xs), length-drop start xs)

  pub slice-none :
      (xs : List A) (start end : ℕ) → (end < start) ⊎ (length xs < end) → slice xs start end ≡ none
  slice-none xs start end h = elim (Bool-cases (leb start end)) [
    | inr apart ↦ rw apart
    | inl ordered ↦ rw ordered (elim (Bool-cases (leb start (length xs))) [
      | inr past ↦ rw (drop?-none start xs (ground arith))
      | inl within ↦
          rw (drop?-some start xs (ground arith))
            (take?-none (end - start) (drop start xs) (ground (arith, length-drop start xs)))
    ])
  ]

  -- A slice in range has the length that it asks for.
  pub slice-length :
      (xs : List A) (start end : ℕ)
      → start ≤ end
      → end ≤ length xs
      → (ys : List A) × (slice xs start end ≡ some ys) × (length ys ≡ end - start)
  slice-length xs start end h k = (
    take (end - start) (drop start xs),
    slice-some xs start end h k,
    omega (arith, length-take (end - start) (drop start xs), length-drop start xs),
  )

  -- The slice that a middle part of a list fills.
  pub slice-middle :
      (xs ys zs : List A) (start end : ℕ)
      → length xs ≡ start
      → start + length ys ≡ end
      → slice (xs ++ (ys ++ zs)) start end ≡ some ys
  slice-middle xs ys zs start end h k =
      slice-some (xs ++ (ys ++ zs)) start end (omega arith)
        (omega (arith, length-append xs (ys ++ zs), length-append ys zs))
      ∙ ap some (
          ap (take (end - start)) (drop-append_length start xs (ys ++ zs) h)
          ∙ take-append_length (end - start) ys zs (omega arith))

  -- Filling up to a least length.
  pub fill-eq :
      (n : ℕ) (xs : List A) (a : A)
      → (if ltb (length xs) n then xs ++ replicate (n - length xs) a else xs)
        ≡ xs ++ replicate (n - length xs) a
  fill-eq n xs a = elim (Bool-cases (ltb (length xs) n)) [
    | inl short ↦ rw short
    | inr long ↦ rw (long, none_left (ground arith), append-nil)
  ]
    where
      none_left : n ≤ length xs → n - length xs ≡ 0
      none_left h = omega arith
