-- ===== src/Store/Action.antt =====
-- Work on the store that may fail: what was written before a failure stays written.
pub use climate.Common.Action.{
  pure, asks, attempt, lift, finally, modify, change, ◌>>=◌, ◌>>◌, Promises, pure-Promises,
  asks-Promises, lift-Promises, Promises-weaken, bind-Promises, modify-Promises, change-Promises,
  finally-Promises,
}
unfoldable pub use climate.Common.Action.{Ends}
use climate.Common.Action.{Action as Work}
use climate.Store.{Store}

abbrev pub Action : Type 0 → Type 0
Action A = Work Store A
