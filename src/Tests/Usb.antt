-- ===== src/Tests/Usb.antt =====
-- Packets, descriptors and the host controller.
use stream_os.Base.{
  ℕ, ◌≡◌, arith, List, [], ◌∷◌, ◌++◌, some, ◌>>=◌, true, false, if◌then◌else◌, ◌↔◌,
}
use stream_os.Io.{IoRange}
use stream_os.Usb.Packet.{UsbPacket, UsbSetupRequestParams, setup, input, get_descriptor}
use stream_os.Usb.Descriptor.Iterator.{
  descriptor_of, collect, finished, unfinished, interface, unknown,
}
use stream_os.Usb.Descriptor.Iterator.Laws.{
  Raw, collect-all_bytes, collect-endless_iff, Leads, IsStuck,
}
use stream_os.Usb.Uhci.TransferDescriptor.{Storage, zeroed, set_status}
use stream_os.Usb.Uhci.TransferDescriptor.Laws.{IsChained}
use stream_os.Usb.Uhci.Work.{MasterQueue, Placed, append_work, numbers, poll, push, pending, ready}
use stream_os.Usb.Uhci.Work.Laws.{AreBelow, numbered, some_active, poll-numbered}
use stream_os.Usb.Uhci.Work.Hang.{AreMade, IsHung}
use stream_os.Usb.Uhci.Work.Append.{append_work-IsAppended}

abbrev request_params : UsbSetupRequestParams
request_params = record {
  pid = setup;
  address = 3;
  endpoint = 0;
  data_toggle = false;
  request_type = 0x80;
  request = get_descriptor;
  value = 0x200;
  index = 0;
  length = 9;
}

abbrev raws : List Raw
raws = record { typ = 4; body = 7 ∷ [] } ∷ record { typ = 9; body = [] } ∷ []

collect-all_bytes_example :
    collect 3 (3 ∷ 4 ∷ 7 ∷ 2 ∷ 9 ∷ 1 ∷ []) ≡ finished (interface (3 ∷ 4 ∷ 7 ∷ []) ∷ unknown 9 ∷ [])
unfolding descriptor_of
collect-all_bytes_example = collect-all_bytes raws (1 ∷ []) 3 (omega arith) (omega arith)

collect-endless_iff_example :
    ((calls : ℕ) → collect calls (0 ∷ 5 ∷ []) ≡ unfinished)
    ↔ ((last : List ℕ) × Leads (0 ∷ 5 ∷ []) last × IsStuck last)
collect-endless_iff_example = collect-endless_iff (0 ∷ 5 ∷ [])

abbrev packet : UsbPacket
packet = record {
  pid = input;
  address = 3;
  endpoint = 1;
  data_toggle = true;
  data_bytes = 1 ∷ 2 ∷ [];
}

abbrev first_work : Placed
first_work = record { packet = packet; at = 0x1000; data_ptr = 0x2000 }

abbrev second_work : Placed
second_work = record { packet = packet; at = 0x1020; data_ptr = 0x2100 }

-- The map holds one descriptor, of which the controller is not done.
abbrev waiting : Storage
unfolding set_status
waiting = record { at = 0x500; descriptor = set_status 0x80 zeroed; buf = 5 ∷ [] }

abbrev master : MasterQueue
master = record {
  queue = record { head_word = 1; element_word = 1 };
  bufs = (6, waiting) ∷ [];
  last_id = 7;
}

append_work-IsAppended_example :
    (work : List Storage) × (chained : List Storage) × (hung : MasterQueue) × AreMade
      (first_work ∷ second_work ∷ [])
      work
    × IsChained work chained
    × IsHung 0x1000 master hung
    × (append_work (first_work ∷ second_work ∷ []) master
        ≡ some (
          record hung { bufs = hung.bufs ++ numbered 7 chained; last_id = 9 },
          numbers 7 chained,
        ))
    × AreBelow 9 (hung.bufs ++ numbered 7 chained)
append_work-IsAppended_example =
    append_work-IsAppended first_work (second_work ∷ []) master
      (
        (omega arith, omega arith, omega arith, omega arith, omega arith),
        ((omega arith, omega arith, omega arith, omega arith, omega arith), tt),
      )
      (omega arith, tt) (omega arith)

abbrev done : Storage
done = record { at = 0x1000; descriptor = zeroed; buf = 1 ∷ 2 ∷ [] }

poll-numbered_example : poll (7 ∷ []) 4 ((6, waiting) ∷ (7, done) ∷ []) [] ≡ (
    if some_active (done ∷ [])
    then (push 4 [] >>= λ queued. some ((6, waiting) ∷ (7, done) ∷ [], queued, pending))
    else some ((6, waiting) ∷ [], [], ready ((1 ∷ 2 ∷ []) ∷ [])))
poll-numbered_example =
    poll-numbered 7 (done ∷ []) ((6, waiting) ∷ []) 4 [] (omega arith, tt) (omega arith)

abbrev port_range : IoRange
port_range = record { addr = 0xc000; length = 20 }
