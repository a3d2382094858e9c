-- ===== src/Usb/Descriptor/Iterator.antt =====
-- src/usb/mod.rs: `UsbDescriptorIterator`, which is the bytes that are left. The loops over a
-- configuration, which call it until it is done, are `collect`.
pub mod Laws
use stream_os.Base.{
  ℕ, zero, suc, ◌+◌, List, [], ◌∷◌, Option, none, some, ◌>>=◌, if◌then◌else◌, ltb, leb, ◌==◌, take?,
  drop?, get_elem?, length,
}

pub data UsbDescriptor : Type 0 where
  device configuration interface endpoint : List ℕ → UsbDescriptor
  unknown : ℕ → UsbDescriptor

-- The match on the descriptor's type.
unfoldable pub descriptor_of : ℕ → List ℕ → UsbDescriptor
descriptor_of typ bytes =
    if typ == 1
    then device bytes
    else if typ == 2
    then configuration bytes
    else if typ == 4
    then interface bytes
    else if typ == 5
    then endpoint bytes
    else unknown typ

-- A call of `next`: the bytes left, and the item. The outer `none` is the panic of `split_at`.
unfoldable pub next : List ℕ → Option (List ℕ × Option UsbDescriptor)
unfolding descriptor_of
next [] = some ([], none)
next (a ∷ []) = some (a ∷ [], none)
next (len ∷ typ ∷ bytes) = do
  first ← take? len (len ∷ typ ∷ bytes)
  rest ← drop? len (len ∷ typ ∷ bytes)
  some (rest, some (descriptor_of typ first))

-- How a loop over the descriptors ends: at the end of the bytes, with a panic, or not within the
-- calls that it is given.
pub data Collected : Type 0 where
  finished : List UsbDescriptor → Collected
  panicked unfinished : Collected

abbrev pub cons : UsbDescriptor → Collected → Collected
cons item (finished items) = finished (item ∷ items)
cons item panicked = panicked
cons item unfinished = unfinished

abbrev pub advance : Option (List ℕ × Option UsbDescriptor) → (List ℕ → Collected) → Collected
advance none later = panicked
advance (some (rest, none)) later = finished []
advance (some (rest, some item)) later = cons item (later rest)

unfoldable pub collect : ℕ → List ℕ → Collected
unfolding next
collect zero bytes = unfinished
collect (suc calls) bytes = advance (next bytes) (collect calls)
