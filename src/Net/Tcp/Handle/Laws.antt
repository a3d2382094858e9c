-- ===== src/Net/Tcp/Handle/Laws.antt =====
-- What each state of a connection does with a frame whose fields can be read.
use stream_os.Base.{
  ℕ, ◌+◌, ◌≡◌, ◌∙◌, List, [], ◌∷◌, ◌++◌, none, some, true, false, if◌then◌else◌, ◌==◌, ==_iff,
  length, u32,
}
use stream_os.Net.Address.{IpAddr}
use stream_os.Net.Tcp.Flags.{flags_of}
use stream_os.Net.Tcp.Frame.{
  source_port, dest_port, seq_num, ack_num, flags, window_size, payload, TcpFrameParams,
  generate_tcp_frame,
}
use stream_os.Net.Tcp.Frame.RoundTrip.{IsRead, generate_tcp_frame-total}
use stream_os.Net.Tcp.State.{OutgoingTcpPacket, ConnectedState, uninit, syn_ack_sent, connected}
use stream_os.Net.Tcp.Handle.{
  Surroundings, Handled, register_wakeup_time, send_connection, wake_service, handle, handle_uninit,
  handle_syn_ack_sent, handle_connected, response_params, syn_ack_flags, ack_flags, ignored,
  listener_key, drop_acked, saturating_suc,
}

-- What the handler reads in the frame `f`, whatever options precede the payload and whatever the
-- checksum says.
pub record Says (p : TcpFrameParams) (f : List ℕ) : Type 0 where
  pub from_port : source_port f ≡ some p.source_port
  pub to_port : dest_port f ≡ some p.dest_port
  pub seq : seq_num f ≡ some p.seq_num
  pub ack : ack_num f ≡ some p.ack_num
  pub flag_byte : flags f ≡ some p.flags
  pub window : window_size f ≡ some p.window_size
  pub contents : payload f ≡ some p.payload

pub read-Says : (p : TcpFrameParams) (f : List ℕ) → IsRead p f → Says p f
read-Says p f r = record {
  from_port = r.from_port;
  to_port = r.to_port;
  seq = r.seq;
  ack = r.ack;
  flag_byte = r.flag_byte;
  window = r.window;
  contents = r.contents;
}

module _ (around : Surroundings) (source_ip dest_ip : IpAddr) (p : TcpFrameParams) (f : List ℕ)
    (r : Says p f) where
  -- The arm of the state, at what the frame says.
  pub handle-uninit :
      handle around f source_ip dest_ip uninit
      ≡ handle_uninit around f source_ip dest_ip p.source_port p.dest_port p.flags
  unfolding handle
  handle-uninit = rw (r.from_port, r.to_port, r.flag_byte)

  pub handle-syn_ack_sent :
      (seq ack timeout : ℕ) (sent : OutgoingTcpPacket)
      → handle around f source_ip dest_ip (syn_ack_sent seq ack timeout sent)
        ≡ handle_syn_ack_sent around f source_ip dest_ip p.source_port p.dest_port p.flags seq ack
            timeout sent
  unfolding handle
  handle-syn_ack_sent seq ack timeout sent = rw (r.from_port, r.to_port, r.flag_byte)

  handle-connected :
      (c : ConnectedState)
      → handle around f source_ip dest_ip (connected c)
        ≡ handle_connected around f source_ip dest_ip p.source_port p.dest_port p.flags c
  unfolding handle
  handle-connected c = rw (r.from_port, r.to_port, r.flag_byte)

  abbrev pub opening : TcpFrameParams
  opening =
      response_params source_ip dest_ip p.source_port p.dest_port (u32 around.random)
        (u32 (p.seq_num + 1)) p.window_size syn_ack_flags

  abbrev pub opened : List ℕ → Handled
  opened reply = record {
    state =
        syn_ack_sent (u32 around.random) (u32 (p.seq_num + 1)) around.one_second_later
          (record { local_ip = dest_ip; remote_ip = source_ip; payload = reply });
    response = some reply;
    events = register_wakeup_time around.one_second_later ∷ wake_service ∷ [];
  }

  pub handle-syn :
      (flags_of p.flags).syn ≡ true
      → (reply : List ℕ) × (generate_tcp_frame opening ≡ some reply)
        × (handle around f source_ip dest_ip uninit ≡ some (opened reply))
  unfolding handle_uninit
  handle-syn syn =
      let (reply, made) = generate_tcp_frame-total opening in
      (reply, made, handle-uninit ∙ rw (syn, r.seq, r.window, made))

  abbrev pub established : ℕ → ℕ → ConnectedState
  established seq ack = record {
    seq_num = u32 (seq + 1);
    outgoing_ack_num = u32 (ack + u32 (length p.payload));
    incoming_ack_num = p.ack_num;
    window_size = p.window_size;
    dup_ack_counter = 0;
    unacknowledged = [];
    to_send = [];
    tx = [];
    rx = [];
  }

  pub handle-ack :
      (seq ack timeout : ℕ) (sent : OutgoingTcpPacket)
      → (flags_of p.flags).syn ≡ false
      → (flags_of p.flags).psh ≡ false
      → (flags_of p.flags).ack ≡ true
      → p.seq_num ≡ ack
      → around.listening (listener_key dest_ip p.dest_port) ≡ true
      → handle around f source_ip dest_ip (syn_ack_sent seq ack timeout sent)
        ≡ some (record {
          state = connected (established seq ack);
          response = none;
          events = send_connection (listener_key dest_ip p.dest_port) ∷ wake_service ∷ [];
        })
  unfolding handle_syn_ack_sent
  handle-ack seq ack timeout sent syn psh acks expected listens =
      handle-syn_ack_sent seq ack timeout sent
      ∙ rw (
        syn,
        psh,
        acks,
        r.seq,
        (==_iff p.seq_num ack).1 expected,
        listens,
        r.contents,
        r.ack,
        r.window,
      )

  abbrev pub received : ConnectedState → ConnectedState
  received c = record {
    seq_num = c.seq_num;
    outgoing_ack_num = u32 (p.seq_num + u32 (length p.payload));
    incoming_ack_num = p.ack_num;
    window_size = p.window_size;
    dup_ack_counter =
        if p.ack_num == c.incoming_ack_num then saturating_suc c.dup_ack_counter else 0;
    unacknowledged = drop_acked p.ack_num c.unacknowledged;
    to_send = c.to_send;
    tx = if (flags_of p.flags).psh then c.tx ++ (p.payload ∷ []) else c.tx;
    rx = c.rx;
  }

  pub handle-expected :
      (c : ConnectedState)
      → c.outgoing_ack_num ≡ p.seq_num
      → (reply : List ℕ) × (generate_tcp_frame (
            response_params source_ip dest_ip p.source_port p.dest_port c.seq_num
              (u32 (p.seq_num + u32 (length p.payload)))
              p.window_size
              ack_flags)
          ≡ some reply)
        × (handle around f source_ip dest_ip (connected c)
            ≡ some (record {
              state = connected (received c);
              response = if (flags_of p.flags).psh then some reply else none;
              events = if (flags_of p.flags).psh then [] else wake_service ∷ [];
            }))
  unfolding handle_connected
  handle-expected c expected =
      let (reply, made) = generate_tcp_frame-total _ in
      (
        reply,
        made,
        handle-connected c
            ∙ rw (
              r.seq,
              (==_iff c.outgoing_ack_num p.seq_num).1 expected,
              r.contents,
              r.ack,
              r.window,
              made,
            ),
      )

  pub handle-unexpected :
      (c : ConnectedState)
      → (c.outgoing_ack_num == p.seq_num) ≡ false
      → handle around f source_ip dest_ip (connected c) ≡ some (ignored (connected c))
  unfolding handle_connected
  handle-unexpected c other = handle-connected c ∙ rw (r.seq, other)
