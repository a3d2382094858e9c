-- ===== src/Usb/Uhci/Work.antt =====
-- src/usb/uhci.rs: the queue of work, and the future that waits for it. `bufs`, a `BTreeMap`, is the
-- list of its entries in the order of their keys. The queue of wakers has room for fifty; of it a
-- push is used, as one step.
pub mod Laws
pub mod Hang
pub mod Append
use stream_os.Base.{
  ℕ, ◌+◌, List, [], ◌∷◌, ◌++◌, Option, none, some, ◌>>=◌, Bool, true, false, if◌then◌else◌, ◌==◌,
  ltb, bit_and, length, u64, Result, ok, err,
}
use stream_os.BitManipulation.{get_bit}
use stream_os.Usb.Packet.{UsbPacket}
use stream_os.Usb.Uhci.Link.{QueueHead, td, set_element_link}
use stream_os.Usb.Uhci.TransferDescriptor.{
  TransferDescriptor, Storage, generate_td, chain_tds, set_link, status,
}

abbrev pub Bufs : Type 0
Bufs = List (ℕ × Storage)

-- `QueueStorage`, and the `last_id` of `Uhci`.
pub record MasterQueue : Type 0 where
  pub queue : QueueHead
  pub bufs : Bufs
  pub last_id : ℕ

-- A packet, and the addresses of its descriptor and of its data.
pub record Placed : Type 0 where
  pub packet : UsbPacket
  pub at : ℕ
  pub data_ptr : ℕ

-- `generate_td(item).expect(..)` of every item.
unfoldable pub generate_all : List Placed → Option (List Storage)
generate_all [] = some []
generate_all (item ∷ items) =
    let later = generate_all items in
    generate_td item.at item.data_ptr item.packet >>= λ made. elim made [
      | ok storage ↦ later >>= λ storages. some (storage ∷ storages)
      | err e ↦ none
    ]

-- An insertion into the map.
unfoldable pub insert : ℕ → Storage → Bufs → Bufs
insert id s [] = (id, s) ∷ []
insert id s ((k, t) ∷ bufs) =
    let later = insert id s bufs in
    if id == k then (id, s) ∷ bufs else if ltb id k then (id, s) ∷ (k, t) ∷ bufs else (k, t) ∷ later

-- The insertion of the pairs of a number and a storage, in order.
unfoldable pub extend : List ℕ → List Storage → Bufs → Bufs
extend [] ss bufs = bufs
extend (id ∷ ids) [] bufs = bufs
extend (id ∷ ids) (s ∷ ss) bufs = extend ids ss (insert id s bufs)

-- The numbers from `id` on, one for each storage.
abbrev pub numbers : ℕ → List Storage → List ℕ
numbers id [] = []
numbers id (s ∷ ss) = u64 id ∷ numbers (id + 1) ss

-- The last entry of the map with its link set.
unfoldable pub link_last : ℕ → Bufs → Option Bufs
unfolding set_link
link_last ptr [] = none
link_last ptr ((k, t) ∷ []) =
    set_link (td ptr) t.descriptor >>= λ d. some ((k, record t { descriptor = d }) ∷ [])
link_last ptr (entry ∷ next ∷ bufs) =
    let later = link_last ptr (next ∷ bufs) in later >>= λ linked. some (entry ∷ linked)

abbrev pub last_active : Bufs → Bool
unfolding status
last_active [] = false
last_active ((k, t) ∷ []) = if bit_and (status t.descriptor) 0x80 == 0 then false else true
last_active (entry ∷ next ∷ bufs) = last_active (next ∷ bufs)

-- The first half of `append_work`: where the new chain is hung. While the last descriptor is active
-- the chain is linked from it, and otherwise from the queue head.
unfoldable pub hang : ℕ → MasterQueue → Option MasterQueue
unfolding last_active
hang ptr master =
    let linked = link_last ptr master.bufs in
    let queued = set_element_link (td ptr) master.queue in
    if last_active master.bufs
    then (linked >>= λ bufs. some (record master { bufs = bufs }))
    else (queued >>= λ queue. some (record master { queue = queue }))

-- `work[0]`, which panics if there is no work.
abbrev pub first_at : List Storage → Option ℕ
first_at [] = none
first_at (s ∷ ss) = some s.at

-- The new state, and the numbers of the future that is returned.
unfoldable pub append_work : List Placed → MasterQueue → Option (MasterQueue × List ℕ)
append_work items master = do
  work ← generate_all items
  chained ← chain_tds work
  ptr ← first_at chained
  hung ← hang ptr master
  some (
    record hung {
      bufs = extend (numbers hung.last_id chained) chained hung.bufs;
      last_id = u64 (hung.last_id + length chained);
    },
    numbers hung.last_id chained,
  )

-- `get` and `remove` of the map.
unfoldable pub get : ℕ → Bufs → Option Storage
get id [] = none
get id ((k, t) ∷ bufs) = let later = get id bufs in if id == k then some t else later

unfoldable pub remove : ℕ → Bufs → Option (Storage × Bufs)
remove id [] = none
remove id ((k, t) ∷ bufs) =
    let later = remove id bufs in
    if id == k then some (t, bufs) else later >>= λ (s, left). some (s, (k, t) ∷ left)

-- Whether bit 23 of some status word is set, which the controller clears when it is done.
unfoldable pub any_active : List ℕ → Bufs → Option Bool
any_active [] bufs = some false
any_active (id ∷ ids) bufs =
    let later = any_active ids bufs in
    get id bufs >>= λ item. if get_bit 32 23 item.descriptor.control then some true else later

-- The buffers of the given numbers, taken out of the map.
unfoldable pub take_all : List ℕ → Bufs → Option (List (List ℕ) × Bufs)
take_all [] bufs = some ([], bufs)
take_all (id ∷ ids) bufs = remove id bufs >>= λ (s, left).
    take_all ids left >>= λ (taken, rest). some (s.buf ∷ taken, rest)

pub data Poll : Type 0 where
  pending : Poll
  ready : List (List ℕ) → Poll

-- A push to the queue of wakers, which panics if it is full.
abbrev pub push : ℕ → List ℕ → Option (List ℕ)
push waker wakers = if ltb (length wakers) 50 then some (wakers ++ (waker ∷ [])) else none

-- `UhciFuture::poll`, in a task with the given waker: the map and the queue of wakers after it. The
-- controller writes the descriptors and the buffers, and a poll sees what it wrote.
unfoldable pub poll : List ℕ → ℕ → Bufs → List ℕ → Option (Bufs × List ℕ × Poll)
poll ids waker bufs wakers = any_active ids bufs >>= λ active.
    if active
    then (push waker wakers >>= λ queued. some (bufs, queued, pending))
    else (take_all ids bufs >>= λ (taken, rest). some (rest, wakers, ready taken))
