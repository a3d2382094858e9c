-- ===== src/Tests/Tables.antt =====
-- The table of connections, as a function.
use stream_os.Base.{◌≡◌, ◌≢◌, ◌∙◌, ℕ_discrete, refl, ap, [], Option, none, some}
use stream_os.Net.Address.{IpAddr-discrete}
use stream_os.Net.Tcp.State.{TcpKey, TcpState, connected}
use stream_os.Net.Tcp.Handle.{handle, ignored}
use stream_os.Net.Tcp.Handle.Laws.{handle-unexpected}
use stream_os.Net.Tcp.Handle.Table.{HashMap, handle_frame, handle_frame-other, or_uninit}
use stream_os.Tests.Frames.{here, there}
use stream_os.Tests.Connections.{syn_params, syn_frame, syn-Says, around, open_state, key}

pub TcpKey-discrete : Discrete TcpKey
unfolding ℕ_discrete IpAddr-discrete
TcpKey-discrete = hlevel (ℕ_discrete, IpAddr-discrete)

abbrev pub if_equal :
    Option TcpState → Option TcpState → {k l : TcpKey} → Dec (k ≡ l) → Option TcpState
if_equal v w (yes e) = v
if_equal v w (no e) = w

abbrev pub update : (TcpKey → Option TcpState) → TcpKey → TcpState → TcpKey → Option TcpState
update m k v l = if_equal (some v) (m l) (TcpKey-discrete l k)

pub update-same :
    (m : TcpKey → Option TcpState) (k : TcpKey) (v : TcpState) (d : Dec (k ≡ k))
    → if_equal (some v) (m k) d ≡ some v
update-same m k v (yes e) = refl
update-same m k v (no e) = absurd (e refl)

pub update-other :
    (m : TcpKey → Option TcpState) (k l : TcpKey) (v : TcpState)
    → l ≢ k
    → (d : Dec (l ≡ k)) → if_equal (some v) (m l) d ≡ m l
update-other m k l v apart (yes e) = absurd (apart e)
update-other m k l v apart (no e) = refl

abbrev pub table : HashMap TcpKey TcpState
table = record {
  Map = TcpKey → Option TcpState;
  get = λ m k. m k;
  insert = update;
  get-insert = λ m k v. update-same m k v (TcpKey-discrete k k);
  get-insert_ne = λ m k l v apart. update-other m k l v apart (TcpKey-discrete l k);
}

abbrev states : TcpKey → Option TcpState
states = update (λ k. none) key (connected open_state)

late_ignored :
    handle around syn_frame there here (or_uninit (states key))
    ≡ some (ignored (connected open_state))
late_ignored =
    ap (λ o. handle around syn_frame there here (or_uninit o))
      (update-same (λ k. none) key (connected open_state) (TcpKey-discrete key key))
    ∙ handle-unexpected around there here syn_params syn_frame syn-Says open_state refl

handle_frame-other_example :
    (after : TcpKey → Option TcpState) × (handle_frame table around syn_frame there here states
      ≡ some (after, none, []))
    × (after key ≡ some (connected open_state))
    × ((other : TcpKey) → other ≢ key → after other ≡ states other)
handle_frame-other_example =
    handle_frame-other table around syn_params syn_frame there here states
      (ignored (connected open_state)) syn-Says late_ignored
