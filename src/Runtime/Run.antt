-- ===== src/Runtime/Run.antt =====
-- `run` of src/runtime.rs: what a run of a container sets up, and what it takes down again. What the
-- system and the container runtime answer is the parameter `Answers`; what the bytes of the terminal
-- are is left out.
pub mod Ends
pub mod Tests
use climate.Common.{
  Text, ◌&&◌, ◌||◌, not, ◌==◌, if◌then◌else◌, Option, none, some, Bool, true, false, ℕ, Result, ok,
  err, guard, context,
}
use climate.Common.Error.{
  Error, no_cgroup2, not_set_up, not_bound, no_hook, not_created_container, no_terminal, no_pid,
  not_forwarded, not_started,
}
use climate.Common.Action.{Action, pure, lift, modify, finally, ◌>>=◌, ◌>>◌}
use climate.Config.{Network, full, no_network, localhost, localnet}

-- What is there because of a run: its bundle directory, its container, the pid that signals are passed
-- on to, the bridge's helper and loop, the terminal in raw mode, and the handler of resizes.
pub record Left : Type 0 where
  pub bundle : Bool
  pub container : Bool
  pub container_pid : ℕ
  pub forwarding : Bool
  pub raw : Bool
  pub resizes : Bool

abbrev pub nothing_left : Left
nothing_left = record {
  bundle = false;
  container = false;
  container_pid = 0;
  forwarding = false;
  raw = false;
  resizes = false;
}

pub record Answers : Type 0 where
  pub has_cgroup2 : Bool
  pub makes_bundle : Bool
  pub makes_state_root : Bool
  pub binds_bridge : Bool
  pub installs_hook : Bool
  pub saves_spec : Bool
  pub becomes_subreaper : Bool
  pub installs_handlers : Bool
  pub binds_console : Bool
  pub sets_state_path : Bool
  -- `discard_pipe`, for each stream that leads to the null device
  pub makes_pipes : Bool
  pub creates_container : Bool
  pub receives_master : Bool
  pub pid : Option ℕ
  pub starts_bridge : Bool
  pub starts_container : Bool
  pub enables_raw : Bool
  pub installs_resize : Bool
  pub wait : Result Error ℕ
  -- the clean-up, of which no error is reported
  pub deletes_container : Bool
  pub removes_bundle : Bool

abbrev pub is_bridged : Network → Bool
is_bridged full = false
is_bridged no_network = false
is_bridged localhost = true
is_bridged localnet = true

-- What is asked for only under a condition: `.map(…).transpose()?`.
abbrev pub when : Bool → Bool → Error → Result Error (Unit {0})
when wanted works e = guard (not wanted || works) e

-- A value that is dropped when the block is left, however that is.
abbrev pub held :
    Result Error (Unit {0}) → (Left → Left) → (Left → Left) → Action Left ℕ → Action Left ℕ
held made acquire release body = do lift made; modify acquire; finally body release

module _ (a : Answers) (tty : Bool) (network : Network) where
  -- Up to the container's creation.
  unfoldable pub set_up : Action Left (Unit {0})
  set_up = do
    lift (guard a.has_cgroup2 no_cgroup2)
    lift (guard a.makes_bundle not_set_up)
    modify (λ s. record s { bundle = true })
    lift (guard a.makes_state_root not_set_up)
    lift (when (is_bridged network) a.binds_bridge not_bound)
    lift (when (is_bridged network) a.installs_hook no_hook)
    lift (guard a.saves_spec not_set_up)
    lift (guard a.becomes_subreaper not_set_up)
    lift (guard a.installs_handlers not_set_up)
    lift (when tty a.binds_console not_bound)
    lift (guard a.sets_state_path not_set_up)
    lift (guard a.makes_pipes not_set_up)
    lift (guard a.creates_container not_created_container)
    modify (λ s. record s { container = true })

  abbrev pub checked_pid : Option ℕ → Result Error ℕ
  checked_pid none = err no_pid
  checked_pid (some pid) = if pid == 0 then err no_pid else ok pid

  abbrev set_forwarding : Bool → Left → Left
  set_forwarding b s = record s { forwarding = b }

  abbrev set_raw : Bool → Left → Left
  set_raw b s = record s { raw = b }

  abbrev set_resizes : Bool → Left → Left
  set_resizes b s = record s { resizes = b }

  -- The closure: its values are dropped in the reverse of their order.
  unfoldable pub attached : Action Left ℕ
  attached =
      held (when (is_bridged network) a.starts_bridge not_forwarded)
        (set_forwarding (is_bridged network)) (set_forwarding false)
        (do
          lift (guard a.starts_container not_started)
          held (when tty a.enables_raw no_terminal) (set_raw tty) (set_raw false) (
              held (when tty a.installs_resize no_terminal) (set_resizes tty) (set_resizes false)
                (lift a.wait)))

  -- Behind the closure, whatever it returned.
  unfoldable pub take_down : Left → Left
  take_down s = record s {
    container_pid = 0;
    container = s.container && not a.deletes_container;
    bundle = s.bundle && not a.removes_bundle;
  }

  -- Once the container is there.
  unfoldable pub supervise : Action Left ℕ
  supervise = do
    lift (when tty a.receives_master no_terminal)
    pid ← lift (checked_pid a.pid)
    modify (λ s. record s { container_pid = pid })
    finally attached take_down

  unfoldable pub run : Action Left ℕ
  run = set_up >> supervise
