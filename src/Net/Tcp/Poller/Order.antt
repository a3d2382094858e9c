-- ===== src/Net/Tcp/Poller/Order.antt =====
-- A poll serves the first entry that has something to send, and only that one.
use stream_os.Base.{◌≡◌, refl, ap, List, [], ◌∷◌, ◌++◌, Option, none, some, ◌>>=◌}
use stream_os.Net.Tcp.State.{
  TcpKey, OutgoingTcpPacket, ConnectedState, TcpState, uninit, syn_ack_sent, connected,
}
use stream_os.Net.Tcp.Poller.{Clock, Served, idle, sent, serve, poll}
use stream_os.Net.Tcp.Poller.Laws.{
  Action, nothing, sends_queued, sends_written, resends, serve_connected-Action,
}

module _ (clock : Clock) where
  abbrev pub AreIdle : List (TcpKey × TcpState) → Type 0
  AreIdle [] = Unit {0}
  AreIdle ((key, state) ∷ entries) = (serve key clock state ≡ some idle) × AreIdle entries

  some_answer :
      (key : TcpKey) (c : ConnectedState) (o : Option Served)
      → Action key clock c o
      → (s : Served) × (o ≡ some s)
  some_answer key c o (nothing e k) = (_, refl)
  some_answer key c o (sends_queued bytes rest f e made) = (_, refl)
  some_answer key c o (sends_written bytes rest f e k made) = (_, refl)
  some_answer key c o (resends packet rest f h e made) = (_, refl)

  serve-total : (key : TcpKey) (state : TcpState) → (s : Served) × (serve key clock state ≡ some s)
  unfolding serve
  serve-total key uninit = (_, refl)
  serve-total key (syn_ack_sent seq ack timeout frame) = (_, refl)
  serve-total key (connected c) = some_answer key c _ (serve_connected-Action key clock c)

  -- What a poll of the entries comes to.
  pub data Polled (entries : List (TcpKey × TcpState))
      : Option (List (TcpKey × TcpState) × Option OutgoingTcpPacket) → Type 0 where
    pending : AreIdle entries → Polled entries (some (entries, none))
    ready :
        (front back : List (TcpKey × TcpState)) (key : TcpKey) (state after : TcpState)
        (packet : OutgoingTcpPacket)
        → entries ≡ front ++ ((key, state) ∷ back)
        → AreIdle front
        → serve key clock state ≡ some (sent after packet)
        → Polled entries (some (front ++ ((key, after) ∷ back), some packet))

  later :
      (key : TcpKey) (state : TcpState) (entries : List (TcpKey × TcpState))
      (o : Option (List (TcpKey × TcpState) × Option OutgoingTcpPacket))
      → serve key clock state ≡ some idle
      → Polled entries o
      → Polled
          ((key, state) ∷ entries)
          (o >>= λ (others, packet). some ((key, state) ∷ others, packet))
  later key state entries o e (pending all) = pending (e, all)
  later key state entries o e (ready front back key' state' after packet split all s) =
      ready ((key, state) ∷ front) back key' state' after packet (ap (λ t. (key, state) ∷ t) split)
        (e, all) s

  step :
      (key : TcpKey) (state : TcpState) (entries : List (TcpKey × TcpState)) (served : Served)
      → serve key clock state ≡ some served
      → Polled entries (poll clock entries)
      → Polled ((key, state) ∷ entries) (poll clock ((key, state) ∷ entries))
  unfolding poll
  step key state entries (sent after packet) e h =
      rw e (ready [] entries key state after packet refl tt e)
  step key state entries idle e h = rw e (later key state entries _ e h)

  -- A poll never panics. It is pending, with nothing changed, if every entry is idle; otherwise it
  -- serves the first entry that is not idle, and leaves every other entry as it was.
  pub poll-Polled : (entries : List (TcpKey × TcpState)) → Polled entries (poll clock entries)
  poll-Polled [] = unfold poll in pending tt
  poll-Polled ((key, state) ∷ entries) =
      let (served, e) = serve-total key state in
      step key state entries served e (poll-Polled entries)
