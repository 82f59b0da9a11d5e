-- ===== src/Runtime/Run/Tests.antt =====
-- A run on which everything goes well, with a terminal and the bridge, and one that is told that its
-- container cannot be created.
use climate.Common.{true, false, ok, some, ◌≡◌, refl}
use climate.Config.{localhost}
use climate.Runtime.Run.{nothing_left, Answers, run, set_up, supervise, attached, take_down}

abbrev pub all_well : Answers
all_well = record {
  has_cgroup2 = true;
  makes_bundle = true;
  makes_state_root = true;
  binds_bridge = true;
  installs_hook = true;
  saves_spec = true;
  becomes_subreaper = true;
  installs_handlers = true;
  binds_console = true;
  sets_state_path = true;
  makes_pipes = true;
  creates_container = true;
  receives_master = true;
  pid = some 4242;
  starts_bridge = true;
  starts_container = true;
  enables_raw = true;
  installs_resize = true;
  wait = ok 7;
  deletes_container = true;
  removes_bundle = true;
}

abbrev pub no_container : Answers
no_container = record all_well { creates_container = false }

-- The run returns what was waited for, and nothing is left.
returned : run all_well true localhost nothing_left ≡ (ok 7, nothing_left)
unfolding run set_up supervise attached take_down
returned = refl
