-- ===== src/Usb/Uhci/Work/Append.antt =====
-- What `append_work` leaves behind.
use stream_os.Base.{
  suc, ◌+◌, ◌^◌, ◌<◌, ◌≤◌, ◌≡◌, refl, ap, subst, arith, List, [], ◌∷◌, ◌++◌, some, length, u64,
}
use stream_os.Usb.Uhci.Link.{element_link}
use stream_os.Usb.Uhci.TransferDescriptor.{Storage, link_pointer, interrupt_on_complete}
use stream_os.Usb.Uhci.TransferDescriptor.Laws.{ArePlaced, IsChained, chain_tds-IsChained}
use stream_os.Usb.Uhci.Work.{
  MasterQueue, Placed, generate_all, numbers, last_active, first_at, append_work,
}
use stream_os.Usb.Uhci.Work.Laws.{AreBelow, numbered, extend-numbered, AreBelow-numbered}
use stream_os.Usb.Uhci.Work.Hang.{
  IsSendable, AreSendable, AreMade, IsHung, generate_all-AreMade, hang-IsHung,
}

chained_lem :
    (first : Storage) (tds chained : List Storage)
    → IsChained (first ∷ tds) chained
    → (first_at chained ≡ some first.at) × (length chained ≡ length (first ∷ tds))
unfolding link_pointer interrupt_on_complete
chained_lem first [] (after ∷ []) h = (ap some h.0.0, refl)
chained_lem first (second ∷ tds) (after ∷ chained) h =
    (ap some h.0.0, ap suc (chained_lem second tds chained h.3).1)
chained_lem first [] [] h = absurd (cc)
chained_lem first [] (a ∷ b ∷ c) h = absurd (cc)
chained_lem first (second ∷ tds) [] h = absurd (cc)

-- What `append_work` gives.
abbrev Appended : Placed → List Placed → MasterQueue → Type 0
unfolding append_work last_active element_link link_pointer interrupt_on_complete
Appended item items master =
    (work : List Storage) × (chained : List Storage) × (hung : MasterQueue) × AreMade (item ∷ items)
      work
    × IsChained work chained
    × IsHung item.at master hung
    × (append_work (item ∷ items) master
        ≡ some (
          record hung {
            bufs = hung.bufs ++ numbered master.last_id chained;
            last_id = master.last_id + length (item ∷ items);
          },
          numbers master.last_id chained,
        ))
    × AreBelow (master.last_id + length (item ∷ items))
        (hung.bufs ++ numbered master.last_id chained)

from_work :
    (item : Placed) (items : List Placed) (master : MasterQueue) (work : List Storage)
    → IsSendable item
    → AreBelow master.last_id master.bufs
    → master.last_id + length (item ∷ items) < 2 ^ 64
    → generate_all (item ∷ items) ≡ some work
    → AreMade (item ∷ items) work
    → ArePlaced work
    → length work ≡ length (item ∷ items)
    → Appended item items master
unfolding append_work Appended
from_work item items master [] sendable below room e made placed len = absurd (cc)
from_work item items master (s ∷ ss) sendable below room e made placed len =
    let (chained, f, chain) = chain_tds-IsChained s ss placed in
    let (first, clen) = chained_lem s ss chained chain in
    let (hung, g, is, under, same) = hang-IsHung item.at master sendable.3 sendable.4 below in
    let fits : master.last_id + length chained ≤ 2 ^ 64 = omega arith in
    let counted : master.last_id + length chained ≡ master.last_id + length (item ∷ items) =
      omega arith in
    let last : u64 (master.last_id + length chained) ≡ master.last_id + length (item ∷ items) =
      omega arith in
    (
      s ∷ ss,
      chained,
      hung,
      made,
      chain,
      is,
      rw (e, f, first, made.2, g, same, extend-numbered master.last_id chained hung.bufs under fits)
          (ap
            (λ n. some (
              record hung { bufs = hung.bufs ++ numbered master.last_id chained; last_id = n },
              numbers master.last_id chained,
            ))
            last),
      subst (λ n. AreBelow n (hung.bufs ++ numbered master.last_id chained)) counted
          (AreBelow-numbered master.last_id chained hung.bufs under),
    )

-- Work that the controller takes, on a map whose numbers are below the next one, of which enough are
-- left: each packet gives a ready descriptor with its bytes, the descriptors are chained in order,
-- the chain hangs behind the last descriptor if the controller is not done with it and at the head of
-- the queue otherwise, and the descriptors are filed under the next numbers, which the future gets.
-- The numbers in the map are again below the next one.
pub append_work-IsAppended :
    (item : Placed) (items : List Placed) (master : MasterQueue)
    → AreSendable (item ∷ items)
    → AreBelow master.last_id master.bufs
    → master.last_id + length (item ∷ items) < 2 ^ 64
    → (work : List Storage) × (chained : List Storage) × (hung : MasterQueue) × AreMade
        (item ∷ items)
        work
      × IsChained work chained
      × IsHung item.at master hung
      × (append_work (item ∷ items) master
          ≡ some (
            record hung {
              bufs = hung.bufs ++ numbered master.last_id chained;
              last_id = master.last_id + length (item ∷ items);
            },
            numbers master.last_id chained,
          ))
      × AreBelow
          (master.last_id + length (item ∷ items))
          (hung.bufs ++ numbered master.last_id chained)
unfolding Appended
append_work-IsAppended item items master h below room =
    let (work, e, made, placed, len) = generate_all-AreMade (item ∷ items) h in
    from_work item items master work h.0 below room e made placed len
