-- ===== src/Net/Tcp/Poller.antt =====
-- src/net/tcp.rs, `OutgoingPoller::poll`: the next packet to send. The table is the list of its
-- entries in the order in which the iteration visits them.
pub mod Laws
pub mod Stream
pub mod Order
use stream_os.Base.{
  ℕ, ◌+◌, ◌^◌, ◌%◌, List, [], ◌∷◌, ◌++◌, map, Option, none, some, ◌>>=◌, Bool, true, false,
  if◌then◌else◌, ltb, leb, length, u32, usize,
}
use mathlib.Core.Option
use stream_os.Net.Tcp.Flags.{generate_tcp_flags}
use stream_os.Net.Tcp.Frame.{TcpFrameParams, generate_tcp_frame}
use stream_os.Net.Tcp.State.{
  TcpKey, OutgoingTcpPacket, UnackedPacket, ConnectedState, TcpState, uninit, syn_ack_sent,
  connected,
}
use stream_os.Net.Tcp.Handle.{ack_flags}

-- The clock: its ticks now, and the ticks in a second.
pub record Clock : Type 0 where
  pub now : ℕ
  pub second : ℕ

abbrev pub push_params : TcpKey → ConnectedState → List ℕ → TcpFrameParams
push_params key state bytes = record {
  source_address = key.local_ip;
  dest_address = key.remote_ip;
  source_port = key.local_port;
  dest_port = key.remote_port;
  seq_num = state.seq_num;
  ack_num = state.outgoing_ack_num;
  flags = generate_tcp_flags ack_flags;
  window_size = 512;
  urgent_ptr = 0;
  payload = bytes;
}

-- The frame, and the state after it.
unfoldable pub generate_tcp_push :
    TcpKey → ConnectedState → List ℕ → TcpFrameParams × ConnectedState
generate_tcp_push key state bytes = (
  push_params key state bytes,
  record state { seq_num = u32 (state.seq_num + u32 (length bytes)) },
)

abbrev pub packet_of : TcpKey → List ℕ → OutgoingTcpPacket
packet_of key bytes = record { local_ip = key.local_ip; remote_ip = key.remote_ip; payload = bytes }

-- The packet with the next data, and the connection that awaits its acknowledgement.
unfoldable pub write_request_to_outgoing_packet :
    TcpKey → ConnectedState → Clock → List ℕ → Option (ConnectedState × OutgoingTcpPacket)
unfolding generate_tcp_push
write_request_to_outgoing_packet key state clock bytes = do
  let (params, pushed) = generate_tcp_push key state bytes
  payload ← generate_tcp_frame params
  some (
    record pushed {
      unacknowledged =
          pushed.unacknowledged ++ (record { timestamp = clock.now; params = params } ∷ []);
    },
    packet_of key payload,
  )

-- The packet is sent again, and all data sent after it is queued to be.
unfoldable pub retransmit :
    TcpKey
    → ConnectedState
    → UnackedPacket
    → List UnackedPacket
    → Option (ConnectedState × OutgoingTcpPacket)
retransmit key state packet rest = do
  payload ← generate_tcp_frame packet.params
  some (
    record state {
      seq_num = u32 (packet.params.seq_num + u32 (length packet.params.payload));
      unacknowledged = [];
      to_send = state.to_send ++ map (λ later. later.params.payload) rest;
    },
    packet_of key payload,
  )

-- What a poll did for one entry: nothing, or it sent a packet.
pub data Served : Type 0 where
  idle : Served
  sent : TcpState → OutgoingTcpPacket → Served

abbrev pub as_sent : ConnectedState × OutgoingTcpPacket → Served
as_sent (state, packet) = sent (connected state) packet

-- Data that waits in the connection goes first, and then data from its writer.
unfoldable pub send_next : TcpKey → Clock → ConnectedState → Option Served
unfolding write_request_to_outgoing_packet
send_next key clock state = elim state.to_send [
  | bytes ∷ rest ↦
      Option.map as_sent
        (write_request_to_outgoing_packet key (record state { to_send = rest }) clock bytes)
  | [] ↦ elim state.rx [
    | bytes ∷ rest ↦
        Option.map as_sent
          (write_request_to_outgoing_packet key (record state { rx = rest }) clock bytes)
    | [] ↦ some idle
  ]
]

unfoldable pub serve_connected : TcpKey → Clock → ConnectedState → Option Served
unfolding retransmit send_next
serve_connected key clock state =
    if leb 2 state.dup_ack_counter
    then elim state.unacknowledged [
      | packet ∷ rest ↦ Option.map as_sent (retransmit key state packet rest)
      | [] ↦ send_next key clock state
    ]
    else send_next key clock state

-- The body of the loop, at one entry.
unfoldable pub serve : TcpKey → Clock → TcpState → Option Served
unfolding serve_connected
serve key clock uninit = some idle
serve key clock (syn_ack_sent seq ack timeout sent_frame) = some (
    if ltb timeout clock.now
    then sent (syn_ack_sent seq ack (usize (timeout + clock.second)) sent_frame) sent_frame
    else idle)
serve key clock (connected state) = serve_connected key clock state

-- `poll`: the table after it, and `none` for `Poll::Pending`.
unfoldable pub poll :
    Clock → List (TcpKey × TcpState) → Option (List (TcpKey × TcpState) × Option OutgoingTcpPacket)
unfolding serve
poll clock [] = some ([], none)
poll clock ((key, state) ∷ entries) =
    let rest = poll clock entries in
    serve key clock state >>= λ served. elim served [
      | sent after packet ↦ some ((key, after) ∷ entries, some packet)
      | idle ↦ rest >>= λ (others, packet). some ((key, state) ∷ others, packet)
    ]
