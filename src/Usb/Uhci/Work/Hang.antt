-- ===== src/Usb/Uhci/Work/Hang.antt =====
-- The descriptors that work is made into, and where their chain is hung.
use stream_os.Base.{
  ℕ, suc, ◌%◌, ◌^◌, ◌<◌, ◌≤◌, ◌≡◌, refl, ap, List, [], ◌∷◌, some, true, false, if◌then◌else◌,
  Bool-cases, inl, inr, length,
}
use stream_os.Usb.Uhci.Link.{td, set_element_link, element_link}
use stream_os.Usb.Uhci.Link.Laws.{set-get_link}
use stream_os.Usb.Uhci.TransferDescriptor.{Storage, link_pointer}
use stream_os.Usb.Uhci.TransferDescriptor.Laws.{
  IsReady, ArePlaced, Keeps, generate_td-IsReady, set_link-word,
}
use stream_os.Usb.Uhci.Work.{Bufs, MasterQueue, Placed, generate_all, link_last, last_active, hang}
use stream_os.Usb.Uhci.Work.Laws.{AreBelow}

-- A packet that the controller takes, whose descriptor stands at an aligned address.
abbrev pub IsSendable : Placed → Type 0
IsSendable item =
    (length item.packet.data_bytes ≤ 1024)
    × (item.packet.address ≤ 0x7e)
    × (item.packet.endpoint < 16)
    × (item.at < 2 ^ 32)
    × (item.at % 16 ≡ 0)

abbrev pub AreSendable : List Placed → Type 0
AreSendable [] = Unit {0}
AreSendable (item ∷ items) = IsSendable item × AreSendable items

-- Each storage was made from its packet.
abbrev pub AreMade : List Placed → List Storage → Type 0
AreMade [] [] = Unit {0}
AreMade (item ∷ items) (s ∷ ss) =
    IsReady s.descriptor item.packet item.data_ptr
    × (s.buf ≡ item.packet.data_bytes)
    × (s.at ≡ item.at)
    × AreMade items ss
AreMade _ _ = true ≡ false

pub generate_all-AreMade :
    (items : List Placed)
    → AreSendable items
    → (work : List Storage) × (generate_all items ≡ some work)
      × AreMade items work
      × ArePlaced work
      × (length work ≡ length items)
unfolding generate_all
generate_all-AreMade [] h = ([], refl, tt, tt, refl)
generate_all-AreMade (item ∷ items) h =
    let (work, e, made, placed, len) = generate_all-AreMade items h.1 in
    let (d, f, is_ready) =
      generate_td-IsReady item.packet item.at item.data_ptr h.0.0 h.0.1 h.0.2 in
    rw (f, e) (_, refl, (is_ready, refl, refl, made), ((h.0.3, h.0.4), placed), ap suc len)

-- The map with the link of its last descriptor set to `ptr`.
abbrev pub IsLinked : ℕ → Bufs → Bufs → Type 0
unfolding link_pointer
IsLinked ptr ((k, t) ∷ []) ((j, u) ∷ []) =
    (j ≡ k)
    × Keeps t u
    × (u.descriptor.control ≡ t.descriptor.control)
    × (link_pointer u.descriptor ≡ td ptr)
IsLinked ptr (entry ∷ next ∷ bufs) (same ∷ linked) =
    (same ≡ entry) × IsLinked ptr (next ∷ bufs) linked
IsLinked ptr _ _ = true ≡ false

link_last-IsLinked :
    (ptr : ℕ) (entry : ℕ × Storage) (bufs : Bufs) (n : ℕ)
    → ptr < 2 ^ 32
    → ptr % 16 ≡ 0
    → AreBelow n (entry ∷ bufs)
    → (linked : Bufs) × (link_last ptr (entry ∷ bufs) ≡ some linked)
      × IsLinked ptr (entry ∷ bufs) linked
      × AreBelow n linked
unfolding link_last link_pointer
link_last-IsLinked ptr (k, t) [] n h a below =
    let (word, e, link) = set-get_link (td ptr) t.descriptor.link_word (h, a) in
    rw (set_link-word t.descriptor word (td ptr) e)
      (_, refl, (refl, (refl, refl, refl, refl), refl, link), (below.0, tt))
link_last-IsLinked ptr entry (next ∷ bufs) n h a below =
    let (linked, e, is, under) = link_last-IsLinked ptr next bufs n h a below.1 in
    rw e (_, refl, (refl, is), (below.0, under))

-- Where the new chain hangs: behind the last descriptor while the controller is not done with it, and
-- at the head of the queue otherwise.
abbrev pub IsHung : ℕ → MasterQueue → MasterQueue → Type 0
unfolding last_active element_link
IsHung ptr before after =
    if last_active before.bufs
    then (IsLinked ptr before.bufs after.bufs × (after.queue ≡ before.queue))
    else ((after.bufs ≡ before.bufs)
        × (element_link after.queue ≡ td ptr)
        × (after.queue.head_word ≡ before.queue.head_word))

linked-IsHung :
    (ptr : ℕ) (master : MasterQueue) (bufs : Bufs)
    → ptr < 2 ^ 32
    → ptr % 16 ≡ 0
    → master.bufs ≡ bufs
    → AreBelow master.last_id bufs
    → last_active bufs ≡ true
    → (hung : MasterQueue) × (hang ptr master ≡ some hung)
      × IsHung ptr master hung
      × AreBelow master.last_id hung.bufs
      × (hung.last_id ≡ master.last_id)
unfolding hang last_active element_link
linked-IsHung ptr master [] h a same below active = absurd (cc)
linked-IsHung ptr master (entry ∷ bufs) h a same below active =
    let (linked, e, is, under) = link_last-IsLinked ptr entry bufs master.last_id h a below in
    rw (same, active, e) (_, refl, (is, refl), under, refl)

queued-IsHung :
    (ptr : ℕ) (master : MasterQueue)
    → ptr < 2 ^ 32
    → ptr % 16 ≡ 0
    → AreBelow master.last_id master.bufs
    → last_active master.bufs ≡ false
    → (hung : MasterQueue) × (hang ptr master ≡ some hung)
      × IsHung ptr master hung
      × AreBelow master.last_id hung.bufs
      × (hung.last_id ≡ master.last_id)
unfolding hang last_active element_link set_element_link
queued-IsHung ptr master h a below idle =
    let (word, e, link) = set-get_link (td ptr) master.queue.element_word (h, a) in
    rw (idle, e) (_, refl, (refl, link, refl), below, refl)

pub hang-IsHung :
    (ptr : ℕ) (master : MasterQueue)
    → ptr < 2 ^ 32
    → ptr % 16 ≡ 0
    → AreBelow master.last_id master.bufs
    → (hung : MasterQueue) × (hang ptr master ≡ some hung)
      × IsHung ptr master hung
      × AreBelow master.last_id hung.bufs
      × (hung.last_id ≡ master.last_id)
unfolding last_active
hang-IsHung ptr master h a below = elim (Bool-cases (last_active master.bufs)) [
  | inl active ↦ linked-IsHung ptr master master.bufs h a refl below active
  | inr idle ↦ queued-IsHung ptr master h a below idle
]
