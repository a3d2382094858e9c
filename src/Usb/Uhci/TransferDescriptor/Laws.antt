-- ===== src/Usb/Uhci/TransferDescriptor/Laws.antt =====
-- What a generated descriptor holds, and how descriptors are chained.
use stream_os.Base.{
  ℕ, ◌%◌, ◌^◌, ◌<◌, ◌≤◌, ◌≡◌, refl, arith, some, true, false, length, ltb, lt→ltb, le→leb, ok, u8,
  u16, List, [], ◌∷◌,
}
use stream_os.BitManipulation.Laws.{bit_fields}
use stream_os.Usb.Packet.{UsbPacket, Pid, setup, input, output}
use stream_os.Usb.Uhci.Link.{LinkPointer, no_link, td, set_link_pointer, get_link_pointer}
use stream_os.Usb.Uhci.Link.Laws.{set-get_link}
use stream_os.Usb.Uhci.TransferDescriptor.{
  TransferDescriptor, link_pointer, set_link, spd, low_speed, set_low_speed, isochronus_select,
  interrupt_on_complete, set_interrupt_on_complete, err_counter, status, set_status, actlen,
  encoded_length, decoded_length, set_maxlen, maxlen, data_toggle, set_data_toggle, endpoint,
  set_endpoint, address, set_address, pid, set_pid, data_pointer, set_data, Storage, pid_value,
  filled, generate_td, chain_tds,
}

decoded_encoded : (len : ℕ) → len ≤ 1280 → decoded_length (u16 (encoded_length len % 2 ^ 11)) ≡ len
decoded_encoded len h = ground arith

-- A descriptor that is ready for the controller: it holds the packet, is active, and ends the chain.
abbrev pub IsReady : TransferDescriptor → UsbPacket → ℕ → Type 0
unfolding link_pointer low_speed status spd err_counter isochronus_select interrupt_on_complete
    actlen maxlen address endpoint pid data_pointer data_toggle
IsReady d packet data_ptr =
    (link_pointer d ≡ no_link)
    × (low_speed d ≡ true)
    × (status d ≡ 0x80)
    × (maxlen d ≡ length packet.data_bytes)
    × (address d ≡ packet.address)
    × (endpoint d ≡ packet.endpoint)
    × (pid d ≡ pid_value packet.pid)
    × (data_pointer d ≡ data_ptr)
    × (data_toggle d ≡ packet.data_toggle)
    × (interrupt_on_complete d ≡ false)
    × (spd d ≡ false)
    × (isochronus_select d ≡ false)
    × (err_counter d ≡ 0)
    × (actlen d ≡ 0)

pub filled-IsReady :
    (packet : UsbPacket) (data_ptr : ℕ)
    → length packet.data_bytes ≤ 1024
    → packet.address ≤ 0x7e
    → packet.endpoint < 16
    → (d : TransferDescriptor) × (filled packet data_ptr ≡ some d) × IsReady d packet data_ptr
unfolding filled set_link set_low_speed set_status set_maxlen set_address set_endpoint set_pid
    set_data set_data_toggle link_pointer low_speed status spd err_counter isochronus_select
    interrupt_on_complete actlen maxlen address endpoint pid data_pointer data_toggle
    set_link_pointer get_link_pointer
filled-IsReady packet data_ptr hl ha he =
    rw
      (
        le→leb (length packet.data_bytes) 1280 (omega arith),
        le→leb packet.address 0x7e ha,
        lt→ltb packet.endpoint 16 he,
      )
      (
        _,
        refl,
        (
          simp bit_fields refl,
          simp bit_fields,
          simp bit_fields,
          simp bit_fields (decoded_encoded (length packet.data_bytes) (omega arith)),
          simp bit_fields (omega arith),
          simp bit_fields (omega arith),
          simp bit_fields (by_pid packet.pid),
          refl,
          simp bit_fields,
          simp bit_fields,
          simp bit_fields,
          simp bit_fields,
          simp bit_fields,
          simp bit_fields,
        ),
      )
  where
    by_pid : (p : Pid) → u8 (pid_value p % 2 ^ 8) ≡ pid_value p
    by_pid setup = refl
    by_pid input = refl
    by_pid output = refl

-- A packet of at most 1024 bytes, for an address up to 126 and an endpoint below 16, gives a
-- descriptor that keeps its bytes and is ready for the controller.
pub generate_td-IsReady :
    (packet : UsbPacket) (at data_ptr : ℕ)
    → length packet.data_bytes ≤ 1024
    → packet.address ≤ 0x7e
    → packet.endpoint < 16
    → (d : TransferDescriptor) × (generate_td at data_ptr packet
        ≡ some (ok (record { at = at; descriptor = d; buf = packet.data_bytes })))
      × IsReady d packet data_ptr
unfolding generate_td
generate_td-IsReady packet at data_ptr hl ha he =
    let (d, e, ready) = filled-IsReady packet data_ptr hl ha he in
    rw (le→not_ltb (length packet.data_bytes) 1024 hl, e) (d, refl, ready)
  where
    le→not_ltb : (n m : ℕ) → n ≤ m → ltb m n ≡ false
    le→not_ltb n m h = ground arith

-- What a descriptor needs of its own to be chained: its address is that of an aligned block.
abbrev pub IsPlaced : Storage → Type 0
IsPlaced s = (s.at < 2 ^ 32) × (s.at % 16 ≡ 0)

abbrev pub ArePlaced : List Storage → Type 0
ArePlaced [] = Unit {0}
ArePlaced (s ∷ ss) = IsPlaced s × ArePlaced ss

-- What chaining keeps of a descriptor.
abbrev pub Keeps : Storage → Storage → Type 0
Keeps s t =
    (t.at ≡ s.at)
    × (t.buf ≡ s.buf)
    × (t.descriptor.token ≡ s.descriptor.token)
    × (t.descriptor.pointer ≡ s.descriptor.pointer)

-- The chain: each descriptor links to the next one, and only the last one is asked to interrupt when
-- it is done; the rest of each is as it was.
abbrev pub IsChained : List Storage → List Storage → Type 0
unfolding link_pointer interrupt_on_complete
IsChained (last ∷ []) (after ∷ []) =
    Keeps last after
    × (after.descriptor.link_word ≡ last.descriptor.link_word)
    × (interrupt_on_complete after.descriptor ≡ true)
IsChained (first ∷ second ∷ tds) (after ∷ chained) =
    Keeps first after
    × (link_pointer after.descriptor ≡ td second.at)
    × (after.descriptor.control ≡ first.descriptor.control)
    × IsChained (second ∷ tds) chained
IsChained _ _ = true ≡ false

pub set_link-word :
    (d : TransferDescriptor) (w : ℕ) (ptr : LinkPointer)
    → set_link_pointer ptr d.link_word ≡ some w
    → set_link ptr d ≡ some (record d { link_word = w })
unfolding set_link
set_link-word d w ptr e = rw e refl

-- One descriptor or more, each in its aligned place, are chained.
pub chain_tds-IsChained :
    (first : Storage) (tds : List Storage)
    → ArePlaced (first ∷ tds)
    → (chained : List Storage) × (chain_tds (first ∷ tds) ≡ some chained)
      × IsChained (first ∷ tds) chained
unfolding chain_tds link_pointer interrupt_on_complete set_interrupt_on_complete
chain_tds-IsChained last [] h = (_, refl, ((refl, refl, refl, refl), refl, simp bit_fields))
chain_tds-IsChained first (second ∷ tds) h =
    let (chained, e, later) = chain_tds-IsChained second tds h.1 in
    let (word, f, link) = set-get_link (td second.at) first.descriptor.link_word h.1.0 in
    rw (set_link-word first.descriptor word (td second.at) f, e)
      (_, refl, ((refl, refl, refl, refl), link, refl, later))
