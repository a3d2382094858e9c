-- ===== src/Net/Tcp/State.antt =====
-- src/net/tcp.rs: the keys and the states of connections. A channel is its queue, the oldest message
-- first: `tx` is what the reader of a connection has to take, `rx` what its writer has handed over.
use stream_os.Base.{ℕ, List}
use stream_os.Net.Address.{IpAddr}
use stream_os.Net.Tcp.Frame.{TcpFrameParams}

pub record TcpListenerKey : Type 0 where
  pub ip : IpAddr
  pub port : ℕ

pub record TcpKey : Type 0 where
  pub remote_ip : IpAddr
  pub local_ip : IpAddr
  pub remote_port : ℕ
  pub local_port : ℕ

pub record OutgoingTcpPacket : Type 0 where
  pub local_ip : IpAddr
  pub remote_ip : IpAddr
  pub payload : List ℕ

pub record UnackedPacket : Type 0 where
  pub timestamp : ℕ
  pub params : TcpFrameParams

pub record ConnectedState : Type 0 where
  pub seq_num : ℕ
  pub outgoing_ack_num : ℕ
  pub incoming_ack_num : ℕ
  pub window_size : ℕ
  pub dup_ack_counter : ℕ
  pub unacknowledged : List UnackedPacket
  pub to_send : List (List ℕ)
  pub tx : List (List ℕ)
  pub rx : List (List ℕ)

pub data TcpState : Type 0 where
  uninit : TcpState
  syn_ack_sent : (seq_num ack_num timeout : ℕ) (sent_frame : OutgoingTcpPacket) → TcpState
  connected : ConnectedState → TcpState
