-- ===== src/Forward/Loop.antt =====
-- `forward_loop` of src/forward.rs. A round is given by what it meets: the two readings of the
-- clock, in nanoseconds, what a scan would find, and the answer of `poll`. The loop ends with the
-- rounds that it is given, or before, by its own return.
pub mod Invariant
pub mod Tests
use climate.Common.{
  leb, ltb, ◌==◌, if◌then◌else◌, Option, none, some, List, [], ◌∷◌, ◌++◌, Bool, true, false, ℕ, ◌+◌,
  not, length,
}
use climate.Common.Number.{show_nat}
use climate.Common.{Text, codes}
use climate.Forward.Loopback.{listening_ports}
use climate.Forward.Mirrors.{Mirror, Scan, rescan}
use climate.Forward.Protocol.{Kernel, listen_on, request, op_listen}

abbrev pub scan_interval : ℕ
scan_interval = 1000000000

-- `ready`: whether the quit pipe has an event, and which mirrors have a connection waiting.
pub data Poll : Type 0 where
  failed : Poll
  ready : Bool → List Bool → Poll

pub record Round : Type 0 where
  pub now : ℕ
  pub later : ℕ
  pub scan : Scan
  pub polled : Poll

pub record LoopState : Type 0 where
  pub mirrors : List Mirror
  pub due : ℕ

pub data Event : Type 0 where
  scanned : ℕ → Event
  served : Mirror → Event
  returned : Event

-- What a scan reads and asks for.
unfoldable pub scan_of : (Text → Option Text) → (ℕ → ℕ → List ℕ) → Kernel → ℕ → Scan
scan_of read_to_string ask host pid = record {
  host = listening_ports read_to_string (codes "/proc/self/net");
  container = listening_ports read_to_string (codes "/proc/" ++ (show_nat pid ++ codes "/net"));
  listen_inside = ask op_listen;
  listen_here = listen_on host;
}

-- `mirrors.iter().zip(&fds[1..])`, and the test for a connection.
abbrev pub waiting : List Mirror → List Bool → List Event
waiting [] flags = []
waiting (m ∷ ms) [] = []
waiting (m ∷ ms) (flag ∷ flags) =
    let rest = waiting ms flags in if flag then served m ∷ rest else rest

unfoldable pub is_due : Round → LoopState → Bool
is_due r st = leb st.due r.now

unfoldable pub scan_round : (List ℕ → List ℕ) → Round → LoopState → LoopState
unfolding is_due
scan_round visit r st =
    if is_due r st
    then record { mirrors = rescan visit r.scan st.mirrors; due = r.later + scan_interval }
    else st

abbrev pub scan_events : Round → LoopState → List Event
scan_events r st = if leb st.due r.now then scanned r.now ∷ [] else []

-- What follows the call of `poll`: a failure and an event on the quit pipe end the loop, otherwise
-- the waiting connections are served and the loop goes on.
abbrev pub go_on : Poll → LoopState → List Event → LoopState × List Event → LoopState × List Event
go_on failed st events more = (st, events ++ returned ∷ [])
go_on (ready true flags) st events more = (st, events ++ returned ∷ [])
go_on (ready false flags) st events more = (more.0, events ++ (waiting st.mirrors flags ++ more.1))

-- The state that the loop ends in, and what it did.
unfoldable pub forward_loop : (List ℕ → List ℕ) → List Round → LoopState → LoopState × List Event
forward_loop visit [] st = (st, [])
forward_loop visit (r ∷ rounds) st =
    go_on r.polled (scan_round visit r st) (scan_events r st)
      (forward_loop visit rounds (scan_round visit r st))

-- The loop starts without a mirror, at a time at which the first scan is due.
abbrev pub start_at : ℕ → LoopState
start_at now = record { mirrors = []; due = now }
