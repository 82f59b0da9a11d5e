-- ===== src/Runtime/Signals.antt =====
-- `forward_signal` and the lines of `run` in src/runtime.rs that set and clear the container's pid.
-- Each access of a static variable and each `kill` is a step, between which a signal may arrive, also
-- while the handler is at work: its mask is empty. The handler runs on the thread that it interrupts, so
-- `run` goes on when every handler is done. `from_named_raw` is the rustix package's.
pub mod Delivery
pub mod Escalation
pub mod Tests
use climate.Common.{
  ◌==◌, ltb, ◌||◌, ◌&&◌, not, if◌then◌else◌, Option, none, some, List, [], ◌∷◌, Bool, true, false,
  ℕ, ◌++◌, ◌≡◌,
}

-- The static variables, the local one that holds what was pending, the signal that `run` is about to
-- send, and the signals that `kill_process` was called with, the latest first.
pub record Signals : Type 0 where
  pub container_pid : ℕ
  pub pending_signal : ℕ
  pub forwarded : Bool
  pub pending : ℕ
  pub chosen : Option ℕ
  pub sent : List ℕ

abbrev pub sig_kill : ℕ
sig_kill = 9

abbrev pub start : Signals
start = record {
  container_pid = 0;
  pending_signal = 0;
  forwarded = false;
  pending = 0;
  chosen = none;
  sent = [];
}

abbrev pub push_signal : Option ℕ → List ℕ → List ℕ
push_signal none sent = sent
push_signal (some signal) sent = signal ∷ sent

unfoldable pub store_pid : ℕ → Signals → Signals
store_pid pid st = record st { container_pid = pid }

unfoldable pub take_pending : Signals → Signals
take_pending st = record st { pending = st.pending_signal; pending_signal = 0 }

unfoldable pub clear_pid : Signals → Signals
clear_pid st = record st { container_pid = 0 }

-- Where a handler is: at its start, with no container found, with one found, and about to send.
pub data Handler : Type 0 where
  entered waits finds : ℕ → Handler
  kills : Option ℕ → Handler

module _ (from_named_raw : ℕ → Option ℕ) where
  -- The next step of `forward_signal`, and what is left of the handler.
  unfoldable pub forward_signal : Handler → Signals → List Handler × Signals
  forward_signal (entered signum) st =
      ((if st.container_pid == 0 then waits signum else finds signum) ∷ [], st)
  forward_signal (waits signum) st = ([], record st { pending_signal = signum })
  forward_signal (finds signum) st = (
    kills (if st.forwarded then some sig_kill else from_named_raw signum) ∷ [],
    record st { forwarded = true },
  )
  forward_signal (kills signal) st = ([], record st { sent = push_signal signal st.sent })

  abbrev choose_signal : Option ℕ → Signals → Signals
  choose_signal none st = st
  choose_signal (some signal) st =
      if st.forwarded then st else record st { forwarded = true; chosen = some signal }

  -- The test of `FORWARDED` for what was pending, and then the `kill`.
  unfoldable pub choose_pending : Signals → Signals
  choose_pending st = choose_signal (from_named_raw st.pending) st

unfoldable pub deliver_pending : Signals → Signals
deliver_pending st = record st { chosen = none; sent = push_signal st.chosen st.sent }

-- Where `run` is: before the pid is stored, before what is pending is taken, before it is known whether
-- to deliver it, before it is delivered, before the pid is cleared, and behind that.
pub data Phase : Type 0 where
  creating created taken decided running over : Phase

-- The handler is installed for SIGINT and SIGTERM.
abbrev pub is_handled : ℕ → Bool
is_handled signum = signum == 2 || signum == 15

-- A run up to some point, with the signals that have arrived and the handlers that are at work, the
-- latest first.
pub data Reach (from_named_raw : ℕ → Option ℕ)
    : List ℕ → Phase → List Handler → Signals → Type 0 where
  begin : Reach from_named_raw [] creating [] start
  arrives :
      {received : List ℕ} {phase : Phase} {handlers : List Handler} {st : Signals} (signum : ℕ)
      → is_handled signum ≡ true
      → Reach from_named_raw received phase handlers st
      → Reach from_named_raw (signum ∷ received) phase (entered signum ∷ handlers) st
  handles :
      {received : List ℕ} {phase : Phase} {handlers : List Handler} {st : Signals}
      (handler : Handler)
      → Reach from_named_raw received phase (handler ∷ handlers) st
      → Reach from_named_raw received phase
          ((forward_signal from_named_raw handler st).0 ++ handlers)
          (forward_signal from_named_raw handler st).1
  stores :
      {received : List ℕ} {st : Signals} (pid : ℕ)
      → (pid == 0) ≡ false
      → Reach from_named_raw received creating [] st
      → Reach from_named_raw received created [] (store_pid pid st)
  takes :
      {received : List ℕ} {st : Signals}
      → Reach from_named_raw received created [] st
      → Reach from_named_raw received taken [] (take_pending st)
  chooses :
      {received : List ℕ} {st : Signals}
      → Reach from_named_raw received taken [] st
      → Reach from_named_raw received decided [] (choose_pending from_named_raw st)
  delivers :
      {received : List ℕ} {st : Signals}
      → Reach from_named_raw received decided [] st
      → Reach from_named_raw received running [] (deliver_pending st)
  clears :
      {received : List ℕ} {st : Signals}
      → Reach from_named_raw received running [] st
      → Reach from_named_raw received over [] (clear_pid st)
