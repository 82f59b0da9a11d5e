-- ===== src/Runtime/Signals/Delivery.antt =====
-- No signal is lost, however the handlers interrupt each other and the run.
use climate.Common.{
  ◌==◌, ◌||◌, ◌&&◌, not, all, any, is_empty, Option, none, some, List, [], ◌∷◌, Bool, true, false,
  ℕ, ◌≡◌,
}
use climate.Runtime.Signals.{
  Signals, Handler, entered, waits, finds, kills, Phase, creating, created, taken, decided, running,
  over, is_handled,
}

-- What is used of `Signal::from_named_raw`: it knows the handled signals, and 0 is none.
pub record IsNamed (from_named_raw : ℕ → Option ℕ) : Type 0 where
  pub zero : from_named_raw 0 ≡ none
  pub handled : (s : ℕ) → is_handled s ≡ true → from_named_raw s ≡ some s

abbrev pub is_some : List ℕ → Bool
is_some [] = false
is_some (s ∷ rest) = true

abbrev has_signal : Option ℕ → Bool
has_signal none = false
has_signal (some s) = true

abbrev has_pid : Phase → ℕ → Bool
has_pid creating pid = pid == 0
has_pid created pid = not (pid == 0)
has_pid taken pid = not (pid == 0)
has_pid decided pid = not (pid == 0)
has_pid running pid = not (pid == 0)
has_pid over pid = pid == 0

-- A handler has a handled signal, and what it has found of the container is so still.
abbrev is_sound : ℕ → Handler → Bool
is_sound pid (entered s) = is_handled s
is_sound pid (waits s) = is_handled s && pid == 0
is_sound pid (finds s) = is_handled s && not (pid == 0)
is_sound pid (kills signal) = has_signal signal && not (pid == 0)

abbrev is_killing : Handler → Bool
is_killing (entered s) = false
is_killing (waits s) = false
is_killing (finds s) = false
is_killing (kills signal) = true

abbrev is_kept : Phase → Signals → Bool
is_kept creating st = not (st.pending_signal == 0)
is_kept created st = not (st.pending_signal == 0) || st.forwarded
is_kept taken st = not (st.pending == 0) || st.forwarded
is_kept decided st = st.forwarded
is_kept running st = st.forwarded
is_kept over st = true

abbrev is_before_choice : Phase → Bool
is_before_choice decided = true
is_before_choice _ = false

abbrev is_waiting : ℕ → Bool
is_waiting s = s == 0 || is_handled s

record Holds (received : List ℕ) (phase : Phase) (handlers : List Handler) (st : Signals)
    : Type 0 where
  sound : all (is_sound st.container_pid) handlers ≡ true
  flag : (any is_killing handlers || (has_signal st.chosen || is_some st.sent)) ≡ st.forwarded
  chosen : (is_before_choice phase || not (has_signal st.chosen)) ≡ true
  pid : has_pid phase st.container_pid ≡ true
  waiting : is_waiting st.pending_signal ≡ true
  pending : is_waiting st.pending ≡ true
  kept : (not (is_some received) || (not (is_empty handlers) || is_kept phase st)) ≡ true
