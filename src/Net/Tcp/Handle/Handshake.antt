-- ===== src/Net/Tcp/Handle/Handshake.antt =====
-- How a connection is opened, and that nothing else opens it.
use stream_os.Base.{
  ◌^◌, ◌<◌, Option-cases, ℕ, ◌+◌, ◌≡◌, refl, sym, subst, ap, ◌∙◌, arith, List, some, true,
  Bool-cases, inl, inr, ◌⊎◌, ◌==◌, ==_iff, u32,
}
use stream_os.Net.Address.{IpAddr, ip_bytes}
use stream_os.Net.Checksum.Laws.{IsBytes}
use stream_os.Net.Tcp.Flags.{flags_of, flags_of-generate}
use stream_os.Net.Tcp.Frame.{
  source_port, dest_port, seq_num, flags, window_size, TcpFrameParams, generate_tcp_frame,
}
use stream_os.Net.Tcp.Frame.RoundTrip.{IsRead, generate_tcp_frame-total, generate_tcp_frame-IsRead}
use stream_os.Net.Tcp.State.{
  OutgoingTcpPacket, ConnectedState, TcpState, uninit, syn_ack_sent, connected,
}
use stream_os.Net.Tcp.Handle.{
  Surroundings, Handled, handle, handle_uninit, handle_syn_ack_sent, response_params, syn_ack_flags,
  listener_key,
}
use stream_os.Net.Tcp.Handle.Laws.{Says, handle-syn, opening}

module _ (around : Surroundings) (source_ip dest_ip : IpAddr) where
  -- A frame with SYN whose fields can be read, whatever options and checksum it has, and whose ports
  -- and window fit in 16 bits, is answered in a fresh state, between addresses of bytes, by a frame that reads as SYN and
  -- ACK and no other flag, from the port it was sent to and back to its own, with the number after
  -- its own acknowledged and no payload, and with a checksum that verifies.
  pub syn-answered :
      (p : TcpFrameParams) (f : List ℕ)
      → Says p f
      → p.source_port < 2 ^ 16
      → p.dest_port < 2 ^ 16
      → p.window_size < 2 ^ 16
      → IsBytes (ip_bytes source_ip)
      → IsBytes (ip_bytes dest_ip)
      → (flags_of p.flags).syn ≡ true
      → (done : Handled) × (reply : List ℕ) × (handle around f source_ip dest_ip uninit ≡ some done)
        × (done.response ≡ some reply)
        × IsRead
            (response_params source_ip dest_ip p.source_port p.dest_port
              (u32 around.random)
              (u32 (p.seq_num + 1))
              p.window_size
              syn_ack_flags)
            reply
  syn-answered p f r from_fits to_fits window_fits from to syn =
      let (reply, made, opens) = handle-syn around source_ip dest_ip p f r syn in
      let (reply', made', reads) =
        generate_tcp_frame-IsRead (opening around source_ip dest_ip p f r) (record {
          source_fits = to_fits;
          dest_fits = from_fits;
          seq_fits = omega arith;
          ack_fits = omega arith;
          flags_fits = (flags_of-generate syn_ack_flags).1;
          window_fits = window_fits;
          urgent_fits = omega arith;
          source_ip = to;
          dest_ip = from;
          body = tt;
        }) in
      (
        _,
        reply,
        opens,
        refl,
        subst (IsRead (opening around source_ip dest_ip p f r)) (same reply reply' made made')
            reads,
      )
    where
      same :
          (a b : List ℕ)
          → generate_tcp_frame (opening around source_ip dest_ip p f r) ≡ some a
          → generate_tcp_frame (opening around source_ip dest_ip p f r) ≡ some b
          → b ≡ a
      same a b h k = ground arith

  uninit-opens_nothing :
      (from to flag_byte : ℕ) (f : List ℕ) (done : Handled) (c : ConnectedState)
      → handle_uninit around f source_ip dest_ip from to flag_byte ≡ some done
      → done.state ≡ connected c
      → ⊥
  unfolding handle_uninit
  uninit-opens_nothing from to flag_byte f done c e k = elim (Bool-cases (flags_of flag_byte).syn) [
    | inr plain ↦ ground arith
    | inl syn ↦ elim (Option-cases (seq_num f)) [
      | inl short ↦ absurd (ground arith)
      | inr (theirs, numbered) ↦ elim (Option-cases (window_size f)) [
        | inl short ↦ absurd (ground arith)
        | inr (window, sized) ↦
            let (reply, made) = generate_tcp_frame-total (
              response_params source_ip dest_ip from to (u32 around.random) (u32 (theirs + 1))
                window syn_ack_flags) in
            ground arith
      ]
    ]
  ]

  acked_only :
      (from to flag_byte : ℕ) (f : List ℕ) (done : Handled) (c : ConnectedState)
      (seq ack timeout : ℕ) (sent : OutgoingTcpPacket)
      → handle_syn_ack_sent around f source_ip dest_ip from to flag_byte seq ack timeout sent
        ≡ some done
      → done.state ≡ connected c
      → (seq_num f ≡ some ack)
        × ((flags_of flag_byte).ack ≡ true)
        × (around.listening (listener_key dest_ip to) ≡ true)
  unfolding handle_syn_ack_sent
  acked_only from to flag_byte f done c seq ack timeout sent e k =
      elim (Bool-cases (flags_of flag_byte).syn) [
        | inl syn ↦ absurd (uninit-opens_nothing from to flag_byte f done c (ground arith) k)
        | inr plain ↦ elim (Bool-cases (flags_of flag_byte).psh) [
          | inl push ↦ absurd (ground arith)
          | inr no_push ↦ elim (Bool-cases (flags_of flag_byte).ack) [
            | inr no_ack ↦ absurd (ground arith)
            | inl acks ↦ elim (Option-cases (seq_num f)) [
              | inl short ↦ absurd (ground arith)
              | inr (theirs, numbered) ↦ elim (Bool-cases (theirs == ack)) [
                | inr other ↦ absurd (ground arith)
                | inl same ↦ elim (Bool-cases (around.listening (listener_key dest_ip to))) [
                  | inr deaf ↦ absurd (ground arith)
                  | inl listens ↦ (numbered ∙ ap some ((==_iff theirs ack).0 same), acks, listens)
                ]
              ]
            ]
          ]
        ]
      ]

  -- What a frame says that opened a connection in the given state.
  abbrev pub IsOpening : List ℕ → TcpState → Type 0
  IsOpening f state =
      (seq : ℕ) × (ack : ℕ) × (timeout : ℕ) × (sent : OutgoingTcpPacket) × (flag_byte : ℕ)
      × (to : ℕ) × (state ≡ syn_ack_sent seq ack timeout sent)
      × (seq_num f ≡ some ack)
      × (flags f ≡ some flag_byte)
      × ((flags_of flag_byte).ack ≡ true)
      × (dest_port f ≡ some to)
      × (around.listening (listener_key dest_ip to) ≡ true)

  opened_by :
      (from to flag_byte : ℕ) (f : List ℕ) (state : TcpState) (done : Handled) (c : ConnectedState)
      → source_port f ≡ some from
      → dest_port f ≡ some to
      → flags f ≡ some flag_byte
      → handle around f source_ip dest_ip state ≡ some done
      → done.state ≡ connected c
      → ((before : ConnectedState) × (state ≡ connected before)) ⊎ IsOpening f state
  unfolding handle
  opened_by from to flag_byte f (connected before) done c h1 h2 h3 e k = inl (before, refl)
  opened_by from to flag_byte f uninit done c h1 h2 h3 e k =
      absurd (uninit-opens_nothing from to flag_byte f done c (sym (rw (h1, h2, h3) refl) ∙ e) k)
  opened_by from to flag_byte f (syn_ack_sent seq ack timeout sent) done c h1 h2 h3 e k =
      let (numbered, acks, listens) =
        acked_only from to flag_byte f done c seq ack timeout sent (sym (rw (h1, h2, h3) refl) ∙ e)
          k in
      inr (seq, ack, timeout, sent, flag_byte, to, refl, numbered, h3, acks, h2, listens)

  -- Whatever the bytes of a frame are, a connection is connected after it only if it was before, or
  -- if it had answered a SYN and the frame, with ACK, starts at the number that it had acknowledged
  -- and is for a listener.
  pub connected_only :
      (f : List ℕ) (state : TcpState) (done : Handled) (c : ConnectedState)
      → handle around f source_ip dest_ip state ≡ some done
      → done.state ≡ connected c
      → ((before : ConnectedState) × (state ≡ connected before)) ⊎ IsOpening f state
  unfolding handle
  connected_only f state done c e k = elim (Option-cases (source_port f)) [
    | inl short ↦ absurd (ground arith)
    | inr (from, h1) ↦ elim (Option-cases (dest_port f)) [
      | inl short ↦ absurd (ground arith)
      | inr (to, h2) ↦ elim (Option-cases (flags f)) [
        | inl short ↦ absurd (ground arith)
        | inr (flag_byte, h3) ↦ opened_by from to flag_byte f state done c h1 h2 h3 e k
      ]
    ]
  ]
