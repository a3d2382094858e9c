-- ===== src/Io/Ports.antt =====
-- The hardware behind the ports, as drivers see it: what a read gives, and what an access and the
-- passing of time do to its state. An access that does not fit its range is an `expect` that panics.
use stream_os.Base.{ℕ, List, [], ◌∷◌, Option, none, some, Result, ok, err}
use stream_os.Io.{PortAccess, out_port, in_port, OffsetOutOfRange}

pub record Ports : Type 1 where
  pub State : Type 0
  pub input : (num_bytes port : ℕ) → State → State × ℕ
  pub output : (num_bytes port val : ℕ) → State → State
  pub sleep : (microseconds : ℕ) → State → State

module _ (P : Ports) where
  -- The state after an access, and the number read; a write gives none, which is 0 here.
  abbrev pub perform : PortAccess → P.State → P.State × ℕ
  perform (out_port n port val) state = (P.output n port val state, 0)
  perform (in_port n port) state = P.input n port state

  abbrev pub access : Result PortAccess OffsetOutOfRange → P.State → Option (P.State × ℕ)
  access (ok a) state = some (perform a state)
  access (err e) state = none

  abbrev pub write_access : Result PortAccess OffsetOutOfRange → P.State → Option P.State
  write_access (ok a) state = some (perform a state).0
  write_access (err e) state = none

-- The same for code that passes the error on; the hardware is as it was.
module _ (P : Ports) where
  abbrev pub try_access :
      Result PortAccess OffsetOutOfRange → P.State → P.State × Result ℕ OffsetOutOfRange
  try_access (ok a) state = let (after, val) = perform P a state in (after, ok val)
  try_access (err e) state = (state, err e)

  -- What follows an access, unless it fails.
  abbrev pub and_then {ℓ κ} :
      {B : Type ℓ} {E : Type κ}
      → P.State × Result ℕ OffsetOutOfRange
      → (OffsetOutOfRange → E)
      → (P.State → ℕ → P.State × Result B E)
      → P.State × Result B E
  and_then (s, ok val) f next = next s val
  and_then (s, err e) f next = (s, err (f e))

-- A device that plays back the numbers to be read, and keeps the log of all accesses and waits, the
-- last one first.
pub data Logged : Type 0 where
  accessed : PortAccess → Logged
  waited : ℕ → Logged

pub record Log : Type 0 where
  pub reads : List ℕ
  pub entries : List Logged

abbrev pub next_read : List ℕ → ℕ
next_read [] = 0
next_read (r ∷ rs) = r

abbrev pub later_reads : List ℕ → List ℕ
later_reads [] = []
later_reads (r ∷ rs) = rs

abbrev pub log_ports : Ports
log_ports = record {
  State = Log;
  input = λ n port log. (
    record { reads = later_reads log.reads; entries = accessed (in_port n port) ∷ log.entries },
    next_read log.reads,
  );
  output = λ n port val log. record log { entries = accessed (out_port n port val) ∷ log.entries };
  sleep = λ microseconds log. record log { entries = waited microseconds ∷ log.entries };
}
