-- ===== src/Net/Tcp/Poller/Stream.antt =====
-- Sending keeps the stream of data: what is acknowledged later, what is queued, and what is written.
use stream_os.Base.{
  ℕ, ◌+◌, ◌≡◌, refl, arith, List, [], ◌∷◌, ◌++◌, map, some, Bool, true, false, ltb→lt, ◌<◌, ◌≤◌,
  Bool-cases, ◌⊎◌, inl, inr, ltb, ◌==◌, ==_iff, length, u32,
}
use stream_os.Net.Tcp.Frame.{TcpFrameParams, generate_tcp_frame}
use stream_os.Net.Address.{IpAddr}
use stream_os.Net.Tcp.Handle.{Surroundings, Handled, handle, drop_acked}
use stream_os.Net.Tcp.Handle.Laws.{Says, handle-expected, handle-unexpected}
use stream_os.Net.Tcp.State.{TcpKey, UnackedPacket, ConnectedState, uninit, syn_ack_sent, connected}
use stream_os.Net.Tcp.Poller.{push_params, Served, idle, sent}

abbrev pub body : UnackedPacket → List ℕ
body packet = packet.params.payload

-- Everything that has been written and is not known to have arrived, in the order of the stream.
abbrev pub outstanding : ConnectedState → List (List ℕ)
outstanding c = map body c.unacknowledged ++ (c.to_send ++ c.rx)

-- The number of the first packet, or of what comes after all of them.
abbrev pub start_of : List UnackedPacket → ℕ → ℕ
start_of [] next = next
start_of (packet ∷ rest) next = packet.params.seq_num

-- Every packet ends where the next one starts, and the last one at the number `next`.
abbrev pub IsContiguous : List UnackedPacket → ℕ → Type 0
IsContiguous [] next = Unit {0}
IsContiguous (packet ∷ rest) next =
    (u32 (packet.params.seq_num + u32 (length (body packet))) ≡ start_of rest next)
    × IsContiguous rest next

-- What a service of a connection keeps, and what packet it sends.
abbrev pub Keeps : TcpKey → ConnectedState → Served → Type 0
Keeps key c idle = (c.to_send ≡ []) × (c.rx ≡ [])
Keeps key c (sent (connected d) packet) =
    (params : TcpFrameParams) × (generate_tcp_frame params ≡ some packet.payload)
    × IsContiguous d.unacknowledged d.seq_num
    × (((params ≡ push_params key c params.payload) × (outstanding d ≡ outstanding c))
        ⊎ ((params.seq_num ≡ start_of c.unacknowledged c.seq_num)
            × (d.seq_num ≡ u32 (params.seq_num + u32 (length params.payload)))
            × (params.payload ∷ outstanding d ≡ outstanding c)))
Keeps key c (sent uninit packet) = ⊥
Keeps key c (sent (syn_ack_sent seq ack timeout frame) packet) = ⊥

drop_acked-IsContiguous :
    (acked : ℕ) (ps : List UnackedPacket) (next : ℕ)
    → IsContiguous ps next
    → IsContiguous (drop_acked acked ps) next
drop_acked-IsContiguous acked [] next h = h
drop_acked-IsContiguous acked (p ∷ ps) next h = elim (Bool-cases (ltb p.params.seq_num acked)) [
  | inl old ↦ rw old h.1
  | inr new ↦ rw new h
]

-- The oldest packet, if there is one, does not start before the number.
abbrev pub IsPast : List UnackedPacket → ℕ → Type 0
IsPast [] acked = Unit {0}
IsPast (oldest ∷ rest) acked = acked ≤ oldest.params.seq_num

-- What is left of the packets after a frame that acknowledges a number: all of them, if the frame was
-- not expected or the oldest one is not before the number, and otherwise all but the oldest.
abbrev pub AreLeft : Bool → ℕ → List UnackedPacket → List UnackedPacket → Type 0
AreLeft expected acked packets left =
    (((expected ≡ false) ⊎ IsPast packets acked) × (left ≡ packets))
    ⊎ ((expected ≡ true)
        × (oldest : UnackedPacket) × (oldest.params.seq_num < acked)
        × (packets ≡ oldest ∷ left))

drop_acked-AreLeft :
    (acked : ℕ) (ps : List UnackedPacket) → AreLeft true acked ps (drop_acked acked ps)
drop_acked-AreLeft acked [] = inl (inr tt, refl)
drop_acked-AreLeft acked (p ∷ ps) = elim (Bool-cases (ltb p.params.seq_num acked)) [
  | inl old ↦ rw old (inr (refl, p, ltb→lt _ _ old, refl))
  | inr new ↦ rw new (inl (inr (ground arith), refl))
]

-- A received frame whose fields can be read, whatever options and checksum it has, keeps the
-- unacknowledged packets of a connection following each other, up to the same next number. It takes
-- the oldest one away if it was expected and acknowledges a number after that packet's first, and
-- leaves all the others; otherwise it leaves all of them.
pub handle-IsContiguous :
    (around : Surroundings) (source_ip dest_ip : IpAddr) (p : TcpFrameParams) (f : List ℕ)
    (c : ConnectedState)
    → Says p f
    → IsContiguous c.unacknowledged c.seq_num
    → (done : Handled) × (d : ConnectedState) × (handle around f source_ip dest_ip (connected c)
        ≡ some done)
      × (done.state ≡ connected d)
      × (d.seq_num ≡ c.seq_num)
      × IsContiguous d.unacknowledged d.seq_num
      × AreLeft (c.outgoing_ack_num == p.seq_num) p.ack_num c.unacknowledged d.unacknowledged
handle-IsContiguous around source_ip dest_ip p f c r h =
    elim (Bool-cases (c.outgoing_ack_num == p.seq_num)) [
      | inl expected ↦
          let (reply, made, e) =
            handle-expected around source_ip dest_ip p f r c
              ((==_iff c.outgoing_ack_num p.seq_num).0 expected) in
          (
            _,
            _,
            e,
            refl,
            refl,
            drop_acked-IsContiguous p.ack_num c.unacknowledged c.seq_num h,
            rw expected (drop_acked-AreLeft p.ack_num c.unacknowledged),
          )
      | inr other ↦ (
        _,
        c,
        handle-unexpected around source_ip dest_ip p f r c other,
        refl,
        refl,
        h,
        inl (inl other, refl),
      )
    ]
