-- ===== src/Runtime/Run/Ends.antt =====
-- What a run leaves, however it ends.
use climate.Common.{not, Bool, true, false, ℕ, Result, ok, err, ◌≡◌, refl, ap, arith}
use climate.Common.Error.{Error, no_terminal}
use climate.Common.Action.{
  bind-Promises, lift-Promises, modify-Promises, finally-Promises, Promises-weaken, Ends, Promises,
}
use climate.Config.{Network}
use climate.Runtime.Run.{
  Left, nothing_left, Answers, when, set_up, attached, take_down, checked_pid, supervise, run,
}

pub record IsDetached (s : Left) : Type 0 where
  pub pid : s.container_pid ≡ 0
  pub forwarding : s.forwarding ≡ false
  pub raw : s.raw ≡ false
  pub resizes : s.resizes ≡ false

attached-Left :
    (a : Answers) (tty : Bool) (net : Network) (s : Left)
    → IsDetached (record s { container_pid = 0 })
    → (attached a tty net s).1 ≡ s
unfolding attached
attached-Left a tty net s d = ground arith

attached-wait :
    (a : Answers) (tty : Bool) (net : Network) (s : Left) (code : ℕ)
    → (attached a tty net s).0 ≡ ok code
    → a.wait ≡ ok code
unfolding attached
attached-wait a tty net s code h = ground arith

set_up-Left :
    (a : Answers) (tty : Bool) (net : Network)
    → Ends
        (λ done s. s ≡ record nothing_left { bundle = true; container = true })
        (λ s. s ≡ record nothing_left { bundle = s.bundle })
        (set_up a tty net nothing_left)
unfolding set_up Ends
set_up-Left a tty net = ground arith

-- The container as it was created.
abbrev created : Left
created = record nothing_left { bundle = true; container = true }

abbrev IsOver : Answers → ℕ → Left → Type 0
IsOver a code s =
    (a.wait ≡ ok code)
    × (s ≡ record nothing_left {
      bundle = not a.removes_bundle;
      container = not a.deletes_container;
    })

attached-Promises :
    (a : Answers) (tty : Bool) (net : Network) (pid : ℕ)
    → Promises
        (λ s. s ≡ record created { container_pid = pid })
        (attached a tty net)
        (λ code s. (a.wait ≡ ok code) × (s ≡ record created { container_pid = pid }))
        (λ s. s ≡ record created { container_pid = pid })
unfolding Ends
attached-Promises a tty net pid = record {
  ends = λ s p. rw p (
      go (attached a tty net here) (attached-wait a tty net here)
        (attached-Left a tty net here detached));
}
  where
    here : Left
    here = record created { container_pid = pid }

    detached : IsDetached (record here { container_pid = 0 })
    detached = record { pid = refl; forwarding = refl; raw = refl; resizes = refl }

    go :
        (out : Result Error ℕ × Left)
        → ((code : ℕ) → out.0 ≡ ok code → a.wait ≡ ok code)
        → out.1 ≡ here
        → Ends (λ code s. (a.wait ≡ ok code) × (s ≡ here)) (λ s. s ≡ here) out
    go (ok code, s) waited same = (waited code refl, same)
    go (err e, s) waited same = same

supervise-Promises :
    (a : Answers) (tty : Bool) (net : Network)
    → Promises (λ s. s ≡ created) (supervise a tty net) (IsOver a) IsDetached
unfolding supervise take_down
supervise-Promises a tty net =
    bind-Promises (λ done s. s ≡ created) _ _
      (lift-Promises _ (when tty a.receives_master no_terminal) not_attached (λ s done p e. p))
      (λ done.
        bind-Promises (λ pid s. s ≡ created) _ _
          (lift-Promises _ (checked_pid a tty net a.pid) not_attached (λ s pid p e. p))
          (λ pid.
            bind-Promises (λ done s. s ≡ record created { container_pid = pid }) _ _
              (modify-Promises _ (λ s. record s { container_pid = pid })
                (λ s p. ap (λ (t : Left). record t { container_pid = pid }) p))
              (λ done.
                finally-Promises (attached a tty net) (take_down a tty net)
                  (attached-Promises a tty net pid)
                  (λ s code q. (q.0, ap (take_down a tty net) q.1))
                  (λ s p.
                    rw p (record { pid = refl; forwarding = refl; raw = refl; resizes = refl })))))
  where
    not_attached : (s : Left) → s ≡ created → IsDetached s
    not_attached s p = rw p (record { pid = refl; forwarding = refl; raw = refl; resizes = refl })

run-Promises :
    (a : Answers) (tty : Bool) (net : Network)
    → Promises (λ s. s ≡ nothing_left) (run a tty net) (IsOver a) IsDetached
unfolding run
run-Promises a tty net =
    bind-Promises (λ done s. s ≡ created) _ _
      (Promises-weaken {E = λ s. s ≡ record nothing_left { bundle = s.bundle }} (set_up a tty net)
        (record { ends = λ s p. rw p (set_up-Left a tty net) }) (λ s done p. p)
        (λ s p. record {
          pid = ap (λ (t : Left). t.container_pid) p;
          forwarding = ap (λ (t : Left). t.forwarding) p;
          raw = ap (λ (t : Left). t.raw) p;
          resizes = ap (λ (t : Left). t.resizes) p;
        }))
      (λ done. supervise-Promises a tty net)

-- However a run ends, no signal is passed on any more, the bridge is down, and the terminal is as it
-- was. A run that returns an exit code returns the one that was waited for, and leaves neither its
-- container nor its bundle, if these can be removed.
pub run-Ends :
    (a : Answers) (tty : Bool) (net : Network)
    → a.deletes_container ≡ true
    → a.removes_bundle ≡ true
    → Ends
        (λ code s. (a.wait ≡ ok code) × (s ≡ nothing_left))
        IsDetached
        (run a tty net nothing_left)
run-Ends a tty net deletes removes =
    (Promises-weaken (run a tty net) (run-Promises a tty net)
        (λ s code q. (q.0, rw (deletes, removes) at q.1)) (λ s p. p)).ends
      nothing_left refl
