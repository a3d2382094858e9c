-- ===== src/Net/Tcp/Handle.antt =====
-- src/net/tcp.rs, `Tcp::handle_frame`: what a received frame does to its connection.
pub mod Laws
pub mod Stream
pub mod Handshake
pub mod Table
use stream_os.Base.{
  ℕ, ◌+◌, ◌^◌, ◌%◌, List, [], ◌∷◌, ◌++◌, Option, none, some, ◌>>=◌, Bool, true, false, not,
  if◌then◌else◌, ◌==◌, ltb, min, length, u32,
}
use stream_os.Net.Address.{IpAddr}
use stream_os.Net.Tcp.Flags.{TcpFlagsParams, flags_of, generate_tcp_flags}
use stream_os.Net.Tcp.Frame.{
  source_port, dest_port, seq_num, ack_num, flags, window_size, payload, TcpFrameParams,
  generate_tcp_frame,
}
use stream_os.Net.Tcp.State.{
  TcpListenerKey, OutgoingTcpPacket, UnackedPacket, ConnectedState, TcpState, uninit, syn_ack_sent,
  connected,
}

-- What the handler calls outside the connection: it registers a wakeup, hands the connection to a
-- listener, and wakes the service that sends.
pub data Event : Type 0 where
  register_wakeup_time : ℕ → Event
  send_connection : TcpListenerKey → Event
  wake_service : Event

-- What the handler reads there: the next random number, the time one second from now, and which
-- listeners there are.
pub record Surroundings : Type 0 where
  pub random : ℕ
  pub one_second_later : ℕ
  pub listening : TcpListenerKey → Bool

pub record Handled : Type 0 where
  pub state : TcpState
  pub response : Option (List ℕ)
  pub events : List Event

abbrev pub ack_flags : TcpFlagsParams
ack_flags = record {
  cwr = false;
  ece = false;
  urg = false;
  ack = true;
  psh = false;
  rst = false;
  syn = false;
  fin = false;
}

abbrev pub syn_ack_flags : TcpFlagsParams
syn_ack_flags = record {
  cwr = false;
  ece = false;
  urg = false;
  ack = true;
  psh = false;
  rst = false;
  syn = true;
  fin = false;
}

-- The frame without payload that answers one from `source_ip` and `from` at `dest_ip` and `to`.
abbrev pub response_params : IpAddr → IpAddr → ℕ → ℕ → ℕ → ℕ → ℕ → TcpFlagsParams → TcpFrameParams
response_params source_ip dest_ip from to seq ack window given = record {
  source_address = dest_ip;
  dest_address = source_ip;
  source_port = to;
  dest_port = from;
  seq_num = seq;
  ack_num = ack;
  flags = generate_tcp_flags given;
  window_size = window;
  urgent_ptr = 0;
  payload = [];
}

-- `saturating_add(1)` on a `u8`.
abbrev pub saturating_suc : ℕ → ℕ
saturating_suc n = min 255 (n + 1)

-- The oldest packet is dropped if the frame acknowledges something past its start.
abbrev pub drop_acked : ℕ → List UnackedPacket → List UnackedPacket
drop_acked acked [] = []
drop_acked acked (packet ∷ rest) = if ltb packet.params.seq_num acked then rest else packet ∷ rest

-- An early return: nothing changes, and nothing is woken.
abbrev pub ignored : TcpState → Handled
ignored state = record { state = state; response = none; events = [] }

abbrev pub listener_key : IpAddr → ℕ → TcpListenerKey
listener_key ip port = record { ip = ip; port = port }

module _ (around : Surroundings) (frame : List ℕ) (source_ip dest_ip : IpAddr) where
  -- The arm for `TcpState::Uninit`.
  unfoldable pub handle_uninit : ℕ → ℕ → ℕ → Option Handled
  handle_uninit from to flag_byte =
      if not (flags_of flag_byte).syn then some (ignored uninit) else (do
        let seq = u32 around.random
        theirs ← seq_num frame
        let ack = u32 (theirs + 1)
        window ← window_size frame
        response_frame ←
            generate_tcp_frame
              (response_params source_ip dest_ip from to seq ack window syn_ack_flags)
        some (record {
          state =
              syn_ack_sent seq ack around.one_second_later
                (record { local_ip = dest_ip; remote_ip = source_ip; payload = response_frame });
          response = some response_frame;
          events = register_wakeup_time around.one_second_later ∷ wake_service ∷ [];
        }))

  -- The arm for `TcpState::SynAckSent`. After the reset the frame is handled again from the start.
  unfoldable pub handle_syn_ack_sent : ℕ → ℕ → ℕ → ℕ → ℕ → ℕ → OutgoingTcpPacket → Option Handled
  unfolding handle_uninit
  handle_syn_ack_sent from to flag_byte seq ack timeout sent_frame =
      let unchanged = some (ignored (syn_ack_sent seq ack timeout sent_frame)) in
      let given = flags_of flag_byte in
      if given.syn
      then handle_uninit from to flag_byte
      else if given.psh
      then unchanged
      else if not given.ack
      then unchanged
      else (do
        theirs ← seq_num frame
        if not (theirs == ack) then unchanged else (do
          let key = listener_key dest_ip to
          if not (around.listening key) then unchanged else (do
            body ← payload frame
            acked ← ack_num frame
            window ← window_size frame
            some (record {
              state = connected (record {
                seq_num = u32 (seq + 1);
                outgoing_ack_num = u32 (ack + u32 (length body));
                incoming_ack_num = acked;
                window_size = window;
                dup_ack_counter = 0;
                unacknowledged = [];
                to_send = [];
                tx = [];
                rx = [];
              });
              response = none;
              events = send_connection key ∷ wake_service ∷ [];
            }))))

  -- The arm for `TcpState::Connected`.
  unfoldable pub handle_connected : ℕ → ℕ → ℕ → ConnectedState → Option Handled
  handle_connected from to flag_byte state = do
    theirs ← seq_num frame
    if not (state.outgoing_ack_num == theirs) then some (ignored (connected state)) else (do
      body ← payload frame
      acked ← ack_num frame
      window ← window_size frame
      let next = u32 (theirs + u32 (length body))
      response_frame ←
          generate_tcp_frame
            (response_params source_ip dest_ip from to state.seq_num next window ack_flags)
      let push = (flags_of flag_byte).psh
      some (record {
        state = connected (record {
          seq_num = state.seq_num;
          outgoing_ack_num = next;
          incoming_ack_num = acked;
          window_size = window;
          dup_ack_counter =
              if acked == state.incoming_ack_num then saturating_suc state.dup_ack_counter else 0;
          unacknowledged = drop_acked acked state.unacknowledged;
          to_send = state.to_send;
          tx = if push then state.tx ++ (body ∷ []) else state.tx;
          rx = state.rx;
        });
        response = if push then some response_frame else none;
        events = if push then [] else wake_service ∷ [];
      }))

  -- `handle_frame`, on the state that is filed under the frame's key.
  unfoldable pub handle : TcpState → Option Handled
  unfolding handle_uninit handle_syn_ack_sent handle_connected
  handle state = do
    from ← source_port frame
    to ← dest_port frame
    flag_byte ← flags frame
    elim state [
      | uninit ↦ handle_uninit from to flag_byte
      | syn_ack_sent seq ack timeout sent_frame ↦
          handle_syn_ack_sent from to flag_byte seq ack timeout sent_frame
      | connected state ↦ handle_connected from to flag_byte state
    ]
