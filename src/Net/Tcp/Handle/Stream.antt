-- ===== src/Net/Tcp/Handle/Stream.antt =====
-- Runs of received frames: the handshake, and the bytes that reach the reader.
use stream_os.Base.{
  ℕ, ◌+◌, ◌≡◌, refl, sym, ap, ◌∙◌, List, [], ◌∷◌, ◌++◌, map, append-nil, append_assoc, Option, some,
  ◌>>=◌, true, Bool-cases, inl, inr, if◌then◌else◌, ◌==◌, ==_iff, length, u32,
}
use stream_os.Net.Address.{IpAddr}
use stream_os.Net.Tcp.Flags.{flags_of}
use stream_os.Net.Tcp.Frame.{TcpFrameParams}
use stream_os.Net.Tcp.State.{ConnectedState, TcpState, connected}
use stream_os.Net.Tcp.Handle.{Surroundings, handle}
use stream_os.Net.Tcp.Handle.Laws.{Says, received, handle-expected, handle-unexpected}

module _ (around : Surroundings) (source_ip dest_ip : IpAddr) where
  -- The state after a sequence of frames, one after the other.
  unfoldable pub handle_all : TcpState → List (List ℕ) → Option TcpState
  unfolding handle
  handle_all state [] = some state
  handle_all state (f ∷ fs) = do
    done ← handle around f source_ip dest_ip state
    handle_all done.state fs

-- What an observer knows of the frames: the fields of every one can be read.
abbrev pub AreRead : List TcpFrameParams → List (List ℕ) → Type 0
AreRead [] [] = Unit {0}
AreRead (p ∷ ps) (f ∷ fs) = Says p f × AreRead ps fs
AreRead _ _ = ⊥

-- The specification of a receiver: the number it expects next, and the messages it has delivered.
-- A frame that starts with that number advances it by its payload, and a pushed payload is
-- delivered; any other frame has no effect.
abbrev pub receive : ℕ → List (List ℕ) → List TcpFrameParams → ℕ × List (List ℕ)
receive next delivered [] = (next, delivered)
receive next delivered (p ∷ ps) =
    if next == p.seq_num
    then receive (u32 (p.seq_num + u32 (length p.payload)))
        (if (flags_of p.flags).psh then delivered ++ (p.payload ∷ []) else delivered) ps
    else receive next delivered ps

module _ (around : Surroundings) (source_ip dest_ip : IpAddr) where
  -- For any sequence of frames whose fields can be read, whatever options and checksums they have, a
  -- connected connection handles them without a panic and stays connected, and what it expects next and what it has handed to the reader are what the
  -- receiver's specification says. The numbers of its own data and its queues of data to send do not
  -- change.
  pub handle_all-receive :
      (c : ConnectedState) (ps : List TcpFrameParams) (fs : List (List ℕ))
      → AreRead ps fs
      → (d : ConnectedState) × (handle_all around source_ip dest_ip (connected c) fs
          ≡ some (connected d))
        × ((d.outgoing_ack_num, d.tx) ≡ receive c.outgoing_ack_num c.tx ps)
        × (d.seq_num ≡ c.seq_num)
        × (d.to_send ≡ c.to_send)
        × (d.rx ≡ c.rx)
  unfolding handle_all
  handle_all-receive c [] [] h = (c, refl, refl, refl, refl, refl)
  handle_all-receive c [] (f ∷ fs) h = absurd h
  handle_all-receive c (p ∷ ps) [] h = absurd h
  handle_all-receive c (p ∷ ps) (f ∷ fs) h = elim (Bool-cases (c.outgoing_ack_num == p.seq_num)) [
    | inl expected ↦
        let (reply, made, e) =
          handle-expected around source_ip dest_ip p f h.0 c
            ((==_iff c.outgoing_ack_num p.seq_num).0 expected) in
        rw (e, expected)
          (handle_all-receive (received around source_ip dest_ip p f h.0 c) ps fs h.1)
    | inr other ↦
        rw (handle-unexpected around source_ip dest_ip p f h.0 c other, other)
          (handle_all-receive c ps fs h.1)
  ]

-- The frames start where the one before ends, from the number `n` on, and every one is pushed.
abbrev pub AreInOrder : ℕ → List TcpFrameParams → Type 0
AreInOrder n [] = Unit {0}
AreInOrder n (p ∷ ps) =
    (p.seq_num ≡ n)
    × ((flags_of p.flags).psh ≡ true)
    × AreInOrder (u32 (n + u32 (length p.payload))) ps

receive-in_order :
    (n : ℕ) (delivered : List (List ℕ)) (ps : List TcpFrameParams)
    → AreInOrder n ps
    → (receive n delivered ps).1 ≡ delivered ++ map (λ p. p.payload) ps
receive-in_order n delivered [] h = sym (append-nil delivered)
receive-in_order n delivered (p ∷ ps) h =
    rw ((==_iff n p.seq_num).1 (sym h.0), h.1, h.0)
      (receive-in_order (u32 (n + u32 (length p.payload))) (delivered ++ (p.payload ∷ [])) ps h.2
        ∙ append_assoc delivered (p.payload ∷ []) (map (λ q. q.payload) ps))

-- Frames that arrive in order, each pushed, are all handed to the reader, in order and nothing else.
pub handle_all-in_order :
    (around : Surroundings) (source_ip dest_ip : IpAddr) (c : ConnectedState)
    (ps : List TcpFrameParams) (fs : List (List ℕ))
    → AreRead ps fs
    → AreInOrder c.outgoing_ack_num ps
    → (d : ConnectedState) × (handle_all around source_ip dest_ip (connected c) fs
        ≡ some (connected d))
      × (d.tx ≡ c.tx ++ map (λ p. p.payload) ps)
handle_all-in_order around source_ip dest_ip c ps fs h ordered =
    let (d, e, same, _, _, _) = handle_all-receive around source_ip dest_ip c ps fs h in
    (d, e, ap (λ t. t.1) same ∙ receive-in_order c.outgoing_ack_num c.tx ps ordered)
