-- ===== src/Usb/Descriptor/Iterator/Laws.antt =====
-- The iterator gives the descriptors that its bytes are made of.
use stream_os.Base.{
  ℕ, zero, suc, ◌+◌, ◌<◌, ◌≡◌, refl, arith, List, [], ◌∷◌, ◌++◌, none, some, take?-some, drop?-some,
  take?-none, take, drop, take-append_length, drop-append_length, length, length-append,
  length-drop, Bool-cases, inl, inr, ◌↔◌, ◌⊎◌, ◌≢◌, leb,
}
use stream_os.Usb.Descriptor.Iterator.{
  UsbDescriptor, descriptor_of, next, Collected, finished, panicked, unfinished, cons, collect,
}

-- A descriptor whose first byte is its length; the second byte is its type.
pub record Raw : Type 0 where
  pub typ : ℕ
  pub body : List ℕ

abbrev pub bytes_of : Raw → List ℕ
bytes_of raw = suc (suc (length raw.body)) ∷ raw.typ ∷ raw.body

abbrev pub all_bytes : List Raw → List ℕ → List ℕ
all_bytes [] rest = rest
all_bytes (raw ∷ raws) rest = bytes_of raw ++ all_bytes raws rest

abbrev pub items_of : List Raw → List UsbDescriptor
unfolding descriptor_of
items_of [] = []
items_of (raw ∷ raws) = descriptor_of raw.typ (bytes_of raw) ∷ items_of raws

next-bytes_of :
    (raw : Raw) (rest : List ℕ)
    → next (bytes_of raw ++ rest) ≡ some (rest, some (descriptor_of raw.typ (bytes_of raw)))
unfolding next
next-bytes_of raw rest =
    rw
      (
        take?-some (length raw.body) (raw.body ++ rest)
            (omega (arith, length-append raw.body rest)),
        drop?-some (length raw.body) (raw.body ++ rest)
            (omega (arith, length-append raw.body rest)),
        take-append_length (length raw.body) raw.body rest refl,
        drop-append_length (length raw.body) raw.body rest refl,
      )
      refl

next-short : (rest : List ℕ) → length rest < 2 → next rest ≡ some (rest, none)
unfolding next
next-short [] h = refl
next-short (a ∷ []) h = refl
next-short (a ∷ b ∷ rest) h = absurd (omega arith)

-- Descriptors that are each as long as their first byte says (at least two bytes), followed by fewer
-- than two bytes, are given one by one, each with its bytes and by its type, and the loop ends, in
-- one call more than there are descriptors.
pub collect-all_bytes :
    (raws : List Raw) (rest : List ℕ) (calls : ℕ)
    → length rest < 2
    → length raws < calls
    → collect calls (all_bytes raws rest) ≡ finished (items_of raws)
unfolding collect
collect-all_bytes raws rest zero short h = absurd (omega arith)
collect-all_bytes [] rest (suc calls) short h = rw (next-short rest short) refl
collect-all_bytes (raw ∷ raws) rest (suc calls) short h =
    rw
      (
        next-bytes_of raw (all_bytes raws rest),
        collect-all_bytes raws rest calls short (omega arith),
      )
      refl

-- What some calls of `next` leave of the bytes.
pub data Leads : List ℕ → List ℕ → Type 0 where
  here : {bytes : List ℕ} → Leads bytes bytes
  after :
      {bytes rest last : List ℕ} (item : UsbDescriptor)
      → next bytes ≡ some (rest, some item)
      → Leads rest last
      → Leads bytes last

-- The bytes start with a descriptor of length zero.
abbrev pub IsStuck : List ℕ → Type 0
IsStuck bytes = (typ : ℕ) × (tail : List ℕ) × (bytes ≡ 0 ∷ typ ∷ tail)

abbrev pub IsEndless : List ℕ → Type 0
unfolding collect
IsEndless bytes = (calls : ℕ) → collect calls bytes ≡ unfinished

stuck-IsEndless : (typ : ℕ) (tail : List ℕ) → IsEndless (0 ∷ typ ∷ tail)
unfolding collect next
stuck-IsEndless typ tail zero = refl
stuck-IsEndless typ tail (suc calls) = rw (stuck-IsEndless typ tail calls) refl

after-IsEndless :
    (bytes rest : List ℕ) (item : UsbDescriptor)
    → next bytes ≡ some (rest, some item)
    → IsEndless rest
    → IsEndless bytes
unfolding collect
after-IsEndless bytes rest item e endless zero = refl
after-IsEndless bytes rest item e endless (suc calls) = rw (e, endless calls) refl

leads-IsEndless : (bytes last : List ℕ) → Leads bytes last → IsStuck last → IsEndless bytes
leads-IsEndless bytes _ here (typ, tail, e) = rw e (stuck-IsEndless typ tail)
leads-IsEndless bytes last (after {rest = rest} item e leads) stuck =
    after-IsEndless bytes rest item e (leads-IsEndless rest last leads stuck)

-- A call that gives an item and whose length is not zero leaves fewer bytes.
data Called (bytes : List ℕ) : Type 0 where
  ends : (rest : List ℕ) → next bytes ≡ some (rest, none) → Called bytes
  panics : next bytes ≡ none → Called bytes
  gives :
      (rest : List ℕ) (item : UsbDescriptor)
      → next bytes ≡ some (rest, some item)
      → (length rest < length bytes) ⊎ IsStuck bytes
      → Called bytes

called : (bytes : List ℕ) → Called bytes
unfolding next
called [] = ends [] refl
called (a ∷ []) = ends (a ∷ []) refl
called (zero ∷ typ ∷ bytes) = gives (0 ∷ typ ∷ bytes) _ refl (inr (typ, bytes, refl))
called (suc len ∷ typ ∷ bytes) = elim (Bool-cases (leb (suc len) (length (typ ∷ bytes) + 1))) [
  | inl fits ↦
      gives (drop len (typ ∷ bytes)) (descriptor_of typ (suc len ∷ take len (typ ∷ bytes)))
        (rw
          (take?-some len (typ ∷ bytes) (ground arith), drop?-some len (typ ∷ bytes) (ground arith))
          refl)
        (inl (omega (arith, length-drop len (typ ∷ bytes))))
  | inr past ↦ panics (rw (take?-none len (typ ∷ bytes) (ground arith)) refl)
]

cons-unfinished : (item : UsbDescriptor) (c : Collected) → cons item c ≡ unfinished → c ≡ unfinished
cons-unfinished item (finished items) h = absurd (cc)
cons-unfinished item panicked h = absurd (cc)
cons-unfinished item unfinished h = refl

collect-ended :
    (n : ℕ) (bytes : List ℕ)
    → length bytes < n
    → (collect n bytes ≢ unfinished) ⊎ ((last : List ℕ) × Leads bytes last × IsStuck last)
unfolding collect
collect-ended zero bytes h = absurd (omega arith)
collect-ended (suc n) bytes h = elim (called bytes) [
  | ends rest e ↦ inl (rw e λ h. absurd (cc))
  | panics e ↦ inl (rw e λ h. absurd (cc))
  | gives rest item e (inr stuck) ↦ inr (bytes, here, stuck)
  | gives rest item e (inl fewer) ↦ elim (collect-ended n rest (omega arith)) [
    | inr (last, leads, stuck) ↦ inr (last, after item e leads, stuck)
    | inl ended ↦ inl (rw e λ h. ended (cons-unfinished item _ h))
  ]
]

-- A loop over the descriptors never ends exactly if it comes to a descriptor of length zero: whatever
-- the bytes are, it ends or panics otherwise.
pub collect-endless_iff :
    (bytes : List ℕ)
    → ((calls : ℕ) → collect calls bytes ≡ unfinished)
      ↔ ((last : List ℕ) × Leads bytes last × IsStuck last)
unfolding IsEndless collect
collect-endless_iff bytes = (
  λ endless. elim (collect-ended (suc (length bytes)) bytes (omega arith)) [
    | inl ended ↦ absurd (ended (endless (suc (length bytes))))
    | inr found ↦ found
  ],
  λ (last, leads, stuck). leads-IsEndless bytes last leads stuck,
)
