-- ===== src/Tests/Connections.antt =====
-- A connection from the handshake to data in both directions.
use stream_os.Base.{
  u16_be_at, u32_be_at, ℕ, ◌^◌, ◌<◌, ◌≡◌, refl, ap, arith, List, [], ◌∷◌, some, true, false, ◌⊎◌,
}
use stream_os.Net.Checksum.{calculate_ipv4_checksum}
use stream_os.BitManipulation.{get_bit, get_bits}
use stream_os.Net.Checksum.Laws.{IsBytes}
use stream_os.Net.Tcp.Flags.{flags_of}
use stream_os.Net.Tcp.Frame.{
  source_port, dest_port, seq_num, ack_num, data_offset_bytes, flags, window_size, payload,
  TcpFrameParams,
}
use stream_os.Net.Tcp.Frame.RoundTrip.{IsFrameParams, IsRead, frame, frame-IsRead}
use stream_os.Net.Tcp.State.{TcpKey, ConnectedState, TcpState, uninit, syn_ack_sent, connected}
use stream_os.Net.Tcp.Handle.{Surroundings, Handled, handle, response_params, syn_ack_flags}
use stream_os.Net.Tcp.Handle.Laws.{Says, read-Says, handle-ack}
use stream_os.Net.Tcp.Handle.Handshake.{syn-answered, IsOpening, connected_only}
use stream_os.Net.Tcp.Handle.Stream.{handle_all, receive, handle_all-receive}
use stream_os.Net.Tcp.Poller.{Clock, poll}
use stream_os.Net.Tcp.Poller.Stream.{IsContiguous, handle-IsContiguous, AreLeft}
use stream_os.Net.Tcp.Poller.Order.{Polled, poll-Polled}
use stream_os.Tests.Frames.{here, there}

abbrev client_frame : ℕ → ℕ → ℕ → List ℕ → TcpFrameParams
client_frame seq ack flag_byte bytes = record {
  source_address = there;
  dest_address = here;
  source_port = 40000;
  dest_port = 80;
  seq_num = seq;
  ack_num = ack;
  flags = flag_byte;
  window_size = 512;
  urgent_ptr = 0;
  payload = bytes;
}

-- SYN; ACK; and PSH with ACK.
abbrev pub syn_params : TcpFrameParams
syn_params = client_frame 999 0 2 []

abbrev ack_params : TcpFrameParams
ack_params = client_frame 1000 6 0x10 []

abbrev push_params : TcpFrameParams
push_params = client_frame 1000 6 0x18 (0x68 ∷ 0x69 ∷ [])

pub client_fits :
    (seq ack flag_byte : ℕ) (bytes : List ℕ)
    → seq < 2 ^ 32
    → ack < 2 ^ 32
    → flag_byte < 256
    → IsBytes bytes
    → IsFrameParams (client_frame seq ack flag_byte bytes)
client_fits seq ack flag_byte bytes hs ha hf hb = record {
  source_fits = omega arith;
  dest_fits = omega arith;
  seq_fits = hs;
  ack_fits = ha;
  flags_fits = hf;
  window_fits = omega arith;
  urgent_fits = omega arith;
  source_ip = omega arith;
  dest_ip = omega arith;
  body = hb;
}

abbrev pub syn_frame : List ℕ
syn_frame = frame syn_params 38881

abbrev ack_frame : List ℕ
ack_frame = frame ack_params 38860

abbrev push_frame : List ℕ
push_frame = frame push_params 12121

syn-IsRead : IsRead syn_params syn_frame
unfolding calculate_ipv4_checksum
syn-IsRead =
    frame-IsRead syn_params 38881
      (client_fits 999 0 2 [] (omega arith) (omega arith) (omega arith) tt) refl

ack-IsRead : IsRead ack_params ack_frame
unfolding calculate_ipv4_checksum
ack-IsRead =
    frame-IsRead ack_params 38860
      (client_fits 1000 6 0x10 [] (omega arith) (omega arith) (omega arith) tt) refl

push-IsRead : IsRead push_params push_frame
unfolding calculate_ipv4_checksum
push-IsRead =
    frame-IsRead push_params 12121
      (client_fits 1000 6 0x18 (0x68 ∷ 0x69 ∷ []) (omega arith) (omega arith) (omega arith)
        (omega arith))
      refl

-- The same SYN with an option, so with a longer header, and without a checksum.
abbrev option_frame : List ℕ
option_frame =
    0x9c ∷ 0x40 ∷ 0 ∷ 80 ∷ 0 ∷ 0 ∷ 3 ∷ 0xe7 ∷ 0 ∷ 0 ∷ 0 ∷ 0 ∷ 0x60 ∷ 2 ∷ 2 ∷ 0 ∷ 0 ∷ 0 ∷ 0 ∷ 0 ∷ 2
    ∷ 4 ∷ 5 ∷ 0xb4 ∷ []

option-Says : Says syn_params option_frame
unfolding source_port dest_port seq_num ack_num data_offset_bytes flags window_size payload
    u16_be_at u32_be_at get_bits
option-Says = record {
  from_port = refl;
  to_port = refl;
  seq = refl;
  ack = refl;
  flag_byte = refl;
  window = refl;
  contents = refl;
}

pub syn-Says : Says syn_params syn_frame
syn-Says = read-Says syn_params syn_frame syn-IsRead

ack-Says : Says ack_params ack_frame
ack-Says = read-Says ack_params ack_frame ack-IsRead

push-Says : Says push_params push_frame
push-Says = read-Says push_params push_frame push-IsRead

abbrev pub around : Surroundings
around = record { random = 5; one_second_later = 110; listening = λ key. true }

pub flags_read :
    (flags_of 2 ≡ record {
      cwr = false;
      ece = false;
      urg = false;
      ack = false;
      psh = false;
      rst = false;
      syn = true;
      fin = false;
    })
    × (flags_of 0x10 ≡ record {
      cwr = false;
      ece = false;
      urg = false;
      ack = true;
      psh = false;
      rst = false;
      syn = false;
      fin = false;
    })
    × (flags_of 0x18 ≡ record {
      cwr = false;
      ece = false;
      urg = false;
      ack = true;
      psh = true;
      rst = false;
      syn = false;
      fin = false;
    })
unfolding flags_of get_bit get_bits
flags_read = (refl, refl, refl)

syn-answered_example :
    (done : Handled) × (reply : List ℕ) × (handle around option_frame there here uninit ≡ some done)
    × (done.response ≡ some reply)
    × IsRead (response_params there here 40000 80 5 1000 512 syn_ack_flags) reply
syn-answered_example =
    syn-answered around there here syn_params option_frame option-Says (omega arith) (omega arith)
      (omega arith) (omega arith) (omega arith) (ap (λ f. f.syn) flags_read.0)

abbrev pub open_state : ConnectedState
open_state = record {
  seq_num = 6;
  outgoing_ack_num = 1000;
  incoming_ack_num = 6;
  window_size = 512;
  dup_ack_counter = 0;
  unacknowledged = [];
  to_send = [];
  tx = [];
  rx = (0x6f ∷ 0x6b ∷ []) ∷ [];
}

-- The data twice: the second time it is not expected any more.
handle_all-receive_example :
    (d : ConnectedState) × (handle_all around there here
        (connected open_state)
        (push_frame ∷ push_frame ∷ [])
      ≡ some (connected d))
    × ((d.outgoing_ack_num, d.tx) ≡ receive 1000 [] (push_params ∷ push_params ∷ []))
    × (d.seq_num ≡ 6)
    × (d.to_send ≡ [])
    × (d.rx ≡ (0x6f ∷ 0x6b ∷ []) ∷ [])
handle_all-receive_example =
    handle_all-receive around there here open_state (push_params ∷ push_params ∷ [])
      (push_frame ∷ push_frame ∷ []) (push-Says, (push-Says, tt))

abbrev pub key : TcpKey
key = record { remote_ip = there; local_ip = here; remote_port = 40000; local_port = 80 }

abbrev clock : Clock
clock = record { now = 50; second = 10 }

-- The four bytes before the number 6, still unacknowledged.
abbrev waiting_state : ConnectedState
waiting_state = record open_state {
  unacknowledged =
      record { timestamp = 20; params = client_frame 2 1000 0x18 (1 ∷ 2 ∷ 3 ∷ 4 ∷ []) } ∷ [];
}

handle-IsContiguous_example :
    (done : Handled) × (d : ConnectedState) × (handle around push_frame there here
        (connected waiting_state)
      ≡ some done)
    × (done.state ≡ connected d)
    × (d.seq_num ≡ 6)
    × IsContiguous d.unacknowledged d.seq_num
    × AreLeft true 6 waiting_state.unacknowledged d.unacknowledged
handle-IsContiguous_example =
    handle-IsContiguous around there here push_params push_frame waiting_state push-Says (refl, tt)

abbrev entries : List (TcpKey × TcpState)
entries = (key, uninit) ∷ (key, connected open_state) ∷ []

poll-Polled_example : Polled clock entries (poll clock entries)
poll-Polled_example = poll-Polled clock entries

abbrev answered : TcpState
answered = syn_ack_sent 5 1000 110 (record { local_ip = here; remote_ip = there; payload = [] })

after_ack :
    (done : Handled) × (d : ConnectedState) × (handle around ack_frame there here answered
      ≡ some done)
    × (done.state ≡ connected d)
after_ack = (
  _,
  _,
  handle-ack around there here ack_params ack_frame ack-Says 5 1000 110
      (record { local_ip = here; remote_ip = there; payload = [] }) (ap (λ f. f.syn) flags_read.1)
      (ap (λ f. f.psh) flags_read.1) (ap (λ f. f.ack) flags_read.1) refl refl,
  refl,
)

connected_only_example :
    ((before : ConnectedState) × (answered ≡ connected before))
    ⊎ IsOpening around there here ack_frame answered
connected_only_example =
    connected_only around there here ack_frame answered after_ack.0 after_ack.1 after_ack.2
      after_ack.3
