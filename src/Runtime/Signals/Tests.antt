-- ===== src/Runtime/Signals/Tests.antt =====
-- Two signals: one while the container is created, and one while the first is about to be sent.
use climate.Common.{◌≤◌, if◌then◌else◌, Option, none, some, [], ◌∷◌, true, ℕ, refl}
use climate.Runtime.Signals.{
  Signals, store_pid, take_pending, entered, waits, finds, kills, forward_signal, choose_pending,
  deliver_pending, running, is_handled, Reach, begin, arrives, handles, stores, takes, chooses,
  delivers,
}
use climate.Runtime.Signals.Escalation.{others, Reach-others}

abbrev named_raw : ℕ → Option ℕ
named_raw s = if is_handled s then some s else none

abbrev finished : Signals
finished = record {
  container_pid = 42;
  pending_signal = 0;
  forwarded = true;
  pending = 2;
  chosen = none;
  sent = 2 ∷ 9 ∷ [];
}

-- The second signal is sent first, as SIGKILL.
finished-reached : Reach named_raw (15 ∷ 2 ∷ []) running [] finished
unfolding forward_signal choose_pending deliver_pending take_pending store_pid
finished-reached = delivers (
    handles (kills (some 9)) (
      handles (finds 15) (
        handles (entered 15) (
          arrives 15 refl (
            chooses (
              takes (
                stores 42 refl
                  (handles (waits 2) (handles (entered 2) (arrives 2 refl begin))))))))))

Reach-others_example : others finished.sent ≤ 1
Reach-others_example = Reach-others named_raw (15 ∷ 2 ∷ []) running [] finished finished-reached
