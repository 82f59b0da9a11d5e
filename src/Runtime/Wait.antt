-- ===== src/Runtime/Wait.antt =====
-- `wait` and `lowerdir_arg` of src/runtime.rs. The answers of the system's `wait` are given.
pub mod Code
pub mod Tests
use climate.Common.{
  Text, contains, ◌==◌, ◌+◌, if◌then◌else◌, Option, none, some, List, [], ◌∷◌, Bool, true, false, ℕ,
  Result, ok, err,
}
use climate.Common.Error.{Error, wait_failed, status_lost, has_colon}

-- `stopped` is a status that is neither an exit nor a death by a signal.
pub data WaitStatus : Type 0 where
  exited killed : ℕ → WaitStatus
  stopped : WaitStatus

-- `nothing`, `interrupted` and `childless` are `Ok(None)`, `EINTR` and `ECHILD`.
pub data Answer : Type 0 where
  changed : ℕ → WaitStatus → Answer
  nothing interrupted childless failed : Answer

abbrev pub code_of : WaitStatus → Option ℕ
code_of (exited code) = some code
code_of (killed signal) = some (128 + signal)
code_of stopped = none

abbrev pub or_wait : Option ℕ → Option (Result Error ℕ) → Option (Result Error ℕ)
or_wait none later = later
or_wait (some code) later = some (ok code)

-- The result, or `none` while it still waits.
unfoldable pub wait : ℕ → List Answer → Option (Result Error ℕ)
wait pid [] = none
wait pid (changed p status ∷ rest) =
    let later = wait pid rest in if p == pid then or_wait (code_of status) later else later
wait pid (nothing ∷ rest) = wait pid rest
wait pid (interrupted ∷ rest) = wait pid rest
wait pid (childless ∷ rest) = some (err status_lost)
wait pid (failed ∷ rest) = some (err wait_failed)

-- A path is a text, so it is UTF-8.
unfoldable pub lowerdir_arg : Text → Result Error Text
lowerdir_arg path = if contains path b':' then err (has_colon path) else ok path
