-- ===== src/Net/Tcp/Poller/Laws.antt =====
-- Which entry a poll serves, and what it sends for it.
use stream_os.Base.{
  ℕ, ◌+◌, ◌≡◌, refl, sym, subst, arith, List, [], ◌∷◌, ◌++◌, map, Option, some, Bool, true, false,
  ◌⊎◌, inl, inr, leb, length, u32,
}
use stream_os.Net.Tcp.Frame.{generate_tcp_frame}
use stream_os.Net.Tcp.Frame.RoundTrip.{generate_tcp_frame-total}
use stream_os.Net.Tcp.State.{TcpKey, OutgoingTcpPacket, UnackedPacket, ConnectedState, connected}
use stream_os.Net.Tcp.Poller.{
  Clock, push_params, generate_tcp_push, packet_of, write_request_to_outgoing_packet, retransmit,
  Served, idle, sent, send_next, serve_connected,
}

-- The connection after it has sent `bytes` as new data.
abbrev pub pushed : TcpKey → Clock → ConnectedState → List ℕ → ConnectedState
pushed key clock c bytes = record c {
  seq_num = u32 (c.seq_num + u32 (length bytes));
  unacknowledged =
      c.unacknowledged ++ (record { timestamp = clock.now; params = push_params key c bytes } ∷ []);
}

-- The connection after it has sent its oldest packet again.
abbrev pub rewound : ConnectedState → UnackedPacket → List UnackedPacket → ConnectedState
rewound c packet rest = record c {
  seq_num = u32 (packet.params.seq_num + u32 (length packet.params.payload));
  unacknowledged = [];
  to_send = c.to_send ++ map (λ later. later.params.payload) rest;
}

module _ (key : TcpKey) (clock : Clock) where
  pub write-eq :
      (c : ConnectedState) (bytes : List ℕ)
      → (f : List ℕ) × (generate_tcp_frame (push_params key c bytes) ≡ some f)
        × (write_request_to_outgoing_packet key c clock bytes
            ≡ some (pushed key clock c bytes, packet_of key f))
  unfolding write_request_to_outgoing_packet generate_tcp_push
  write-eq c bytes =
      let (f, made) = generate_tcp_frame-total (push_params key c bytes) in (f, made, rw made)

  pub retransmit-eq :
      (c : ConnectedState) (packet : UnackedPacket) (rest : List UnackedPacket)
      → (f : List ℕ) × (generate_tcp_frame packet.params ≡ some f)
        × (retransmit key c packet rest ≡ some (rewound c packet rest, packet_of key f))
  unfolding retransmit
  retransmit-eq c packet rest =
      let (f, made) = generate_tcp_frame-total packet.params in (f, made, rw made)

  -- What serving a connection comes to: nothing, new data, or the oldest packet again.
  pub data Action (c : ConnectedState) : Option Served → Type 0 where
    nothing : c.to_send ≡ [] → c.rx ≡ [] → Action c (some idle)
    sends_queued :
        (bytes : List ℕ) (rest : List (List ℕ)) (f : List ℕ)
        → c.to_send ≡ bytes ∷ rest
        → generate_tcp_frame (push_params key c bytes) ≡ some f
        → Action c (
            some (
              sent
                (connected (pushed key clock (record c { to_send = rest }) bytes))
                (packet_of key f)))
    sends_written :
        (bytes : List ℕ) (rest : List (List ℕ)) (f : List ℕ)
        → c.to_send ≡ []
        → c.rx ≡ bytes ∷ rest
        → generate_tcp_frame (push_params key c bytes) ≡ some f
        → Action c (
            some (
              sent (connected (pushed key clock (record c { rx = rest }) bytes)) (packet_of key f)))
    resends :
        (packet : UnackedPacket) (rest : List UnackedPacket) (f : List ℕ)
        → leb 2 c.dup_ack_counter ≡ true
        → c.unacknowledged ≡ packet ∷ rest
        → generate_tcp_frame packet.params ≡ some f
        → Action c (some (sent (connected (rewound c packet rest)) (packet_of key f)))

  send_next-idle :
      (c : ConnectedState) → c.to_send ≡ [] → c.rx ≡ [] → send_next key clock c ≡ some idle
  unfolding send_next
  send_next-idle c e k = rw (e, k)

  send_next-written :
      (c d : ConnectedState) (bytes : List ℕ) (rest : List (List ℕ)) (packet : OutgoingTcpPacket)
      → c.to_send ≡ []
      → c.rx ≡ bytes ∷ rest
      → write_request_to_outgoing_packet key (record c { rx = rest }) clock bytes ≡ some (d, packet)
      → send_next key clock c ≡ some (sent (connected d) packet)
  unfolding send_next
  send_next-written c d bytes rest packet e k w = ground arith

  send_next-queued :
      (c d : ConnectedState) (bytes : List ℕ) (rest : List (List ℕ)) (packet : OutgoingTcpPacket)
      → c.to_send ≡ bytes ∷ rest
      → write_request_to_outgoing_packet key (record c { to_send = rest }) clock bytes
        ≡ some (d, packet)
      → send_next key clock c ≡ some (sent (connected d) packet)
  unfolding send_next
  send_next-queued c d bytes rest packet e w = ground arith

  send_next-Action : (c : ConnectedState) → Action c (send_next key clock c)
  send_next-Action c = by_to_send c.to_send refl
    where
      by_rx : (q : List (List ℕ)) → c.to_send ≡ [] → c.rx ≡ q → Action c (send_next key clock c)
      by_rx [] e k = subst (Action c) (sym (send_next-idle c e k)) (nothing e k)
      by_rx (bytes ∷ rest) e k =
          let (f, made, w) = write-eq (record c { rx = rest }) bytes in
          subst (Action c) (sym (send_next-written c _ bytes rest _ e k w))
            (sends_written bytes rest f e k made)

      by_to_send : (q : List (List ℕ)) → c.to_send ≡ q → Action c (send_next key clock c)
      by_to_send [] e = by_rx c.rx e refl
      by_to_send (bytes ∷ rest) e =
          let (f, made, w) = write-eq (record c { to_send = rest }) bytes in
          subst (Action c) (sym (send_next-queued c _ bytes rest _ e w))
            (sends_queued bytes rest f e made)

  serve_connected-next :
      (c : ConnectedState)
      → (leb 2 c.dup_ack_counter ≡ false) ⊎ (c.unacknowledged ≡ [])
      → serve_connected key clock c ≡ send_next key clock c
  unfolding serve_connected
  serve_connected-next c h = ground arith

  serve_connected-again :
      (c d : ConnectedState) (p : UnackedPacket) (rest : List UnackedPacket)
      (packet : OutgoingTcpPacket)
      → leb 2 c.dup_ack_counter ≡ true
      → c.unacknowledged ≡ p ∷ rest
      → retransmit key c p rest ≡ some (d, packet)
      → serve_connected key clock c ≡ some (sent (connected d) packet)
  unfolding serve_connected
  serve_connected-again c d p rest packet h e w = ground arith

  pub serve_connected-Action : (c : ConnectedState) → Action c (serve_connected key clock c)
  serve_connected-Action c = by_counter (leb 2 c.dup_ack_counter) c.unacknowledged refl refl
    where
      by_counter :
          (b : Bool) (q : List UnackedPacket)
          → leb 2 c.dup_ack_counter ≡ b
          → c.unacknowledged ≡ q
          → Action c (serve_connected key clock c)
      by_counter false q e k =
          subst (Action c) (sym (serve_connected-next c (inl e))) (send_next-Action c)
      by_counter true [] e k =
          subst (Action c) (sym (serve_connected-next c (inr k))) (send_next-Action c)
      by_counter true (p ∷ rest) e k =
          let (f, made, w) = retransmit-eq c p rest in
          subst (Action c) (sym (serve_connected-again c _ p rest _ e k w))
            (resends p rest f e k made)
