-- ===== src/Net/Tcp/Handle/Table.antt =====
-- src/net/tcp.rs, `Tcp::handle_frame`, over the table of all connections. The table is a `HashMap`,
-- of which only a lookup and an insertion are used here.
use stream_os.Base.{ℕ, ◌≡◌, ◌≢◌, List, Option, none, some, ◌>>=◌}
use stream_os.Net.Address.{IpAddr}
use stream_os.Net.Tcp.Frame.{source_port, dest_port}
use stream_os.Net.Tcp.Frame.{TcpFrameParams}
use stream_os.Net.Tcp.Handle.Laws.{Says}
use stream_os.Net.Tcp.State.{TcpKey, TcpState, uninit}
use stream_os.Net.Tcp.Handle.{Surroundings, Event, Handled, handle}

pub record HashMap (K V : Type 0) : Type 1 where
  pub Map : Type 0
  pub get : Map → K → Option V
  pub insert : Map → K → V → Map
  pub get-insert : (m : Map) (k : K) (v : V) → get (insert m k v) k ≡ some v
  pub get-insert_ne : (m : Map) (k l : K) (v : V) → l ≢ k → get (insert m k v) l ≡ get m l

-- `or_insert(TcpState::Uninit)`.
abbrev pub or_uninit : Option TcpState → TcpState
or_uninit none = uninit
or_uninit (some state) = state

abbrev pub tcp_key : IpAddr → IpAddr → ℕ → ℕ → TcpKey
tcp_key source_ip dest_ip from to = record {
  remote_ip = source_ip;
  local_ip = dest_ip;
  remote_port = from;
  local_port = to;
}

module _ (table : HashMap TcpKey TcpState) (around : Surroundings) where
  unfoldable pub handle_frame :
      List ℕ → IpAddr → IpAddr → table.Map → Option (table.Map × Option (List ℕ) × List Event)
  handle_frame frame source_ip dest_ip states = do
    from ← source_port frame
    to ← dest_port frame
    let key = tcp_key source_ip dest_ip from to
    done ← handle around frame source_ip dest_ip (or_uninit (table.get states key))
    some (table.insert states key done.state, done.response, done.events)

  -- A frame whose fields can be read, whatever options and checksum it has, acts on the connection
  -- between its two ends as `handle` does, with a fresh
  -- connection where there is none, and on no other connection.
  pub handle_frame-other :
      (p : TcpFrameParams) (f : List ℕ) (source_ip dest_ip : IpAddr) (states : table.Map)
      (done : Handled)
      → Says p f
      → handle around f source_ip dest_ip
          (or_uninit (table.get states (tcp_key source_ip dest_ip p.source_port p.dest_port)))
        ≡ some done
      → (after : table.Map) × (handle_frame f source_ip dest_ip states
          ≡ some (after, done.response, done.events))
        × (table.get after (tcp_key source_ip dest_ip p.source_port p.dest_port) ≡ some done.state)
        × ((other : TcpKey)
            → other ≢ tcp_key source_ip dest_ip p.source_port p.dest_port
            → table.get after other ≡ table.get states other)
  unfolding handle_frame
  handle_frame-other p f source_ip dest_ip states done r e = (
    table.insert states (tcp_key source_ip dest_ip p.source_port p.dest_port) done.state,
    rw (r.from_port, r.to_port, e),
    table.get-insert _ _ _,
    λ other apart. table.get-insert_ne _ _ other _ apart,
  )
