-- ===== src/Config/Tests.antt =====
-- A definition with an override, and the loading of one.
use climate.Common.{codes, text_eq, none, some, [], ◌∷◌, true, ℕ, ok, ◌≡◌, refl}
use climate.Config.{AppConfig, no_network}
use climate.Config.Merge.{Table, plain, table, nil, entry, get, insert, merge}
use climate.Config.Merge.Lookup.{IsTable, get-merge}
use climate.Config.Load.{
  Files, Toml, search_dirs, is_valid_name, validate_app_name, find_place, read, read_override,
  check_names, check_syscall_names, check_config, load_with_raw,
}
use climate.Config.Load.Checked.{IsLoaded, load_with_raw-IsLoaded}
use climate.Spec.Paths.{join_path}

abbrev base : Table ℕ
base =
    entry (codes "run") (table (entry (codes "a") (plain 1) (entry (codes "b") (plain 2) nil)))
      (entry (codes "k") (plain 3) nil)

abbrev over : Table ℕ
over = entry (codes "run") (table (entry (codes "b") (plain 7) nil)) nil

merged_run :
    get (codes "run") (merge base over)
    ≡ some (table (entry (codes "a") (plain 1) (entry (codes "b") (plain 7) nil)))
unfolding get insert merge text_eq
merged_run = refl

over-IsTable : IsTable over
unfolding get
over-IsTable = (refl, tt)

get-merge_example : get (codes "k") (merge base over) ≡ some (plain 3)
unfolding get text_eq
get-merge_example = get-merge base over (codes "k") over-IsTable

abbrev files : Files
files = record {
  apps_dir = some (codes "/apps");
  config_dir = none;
  data_dir = none;
  is_file = λ path. text_eq path (codes "/apps/x/xh.toml");
  read_to_string = λ path. some (codes "text");
}

abbrev loaded : AppConfig ℕ ℕ
loaded = record {
  app = record { name = codes "xh"; description = codes "A client"; license = codes "MIT" };
  image = record { reference = codes "a/xh:1"; pull = true; install = none };
  run = record {
    entrypoint = none;
    args = [];
    env = [];
    mount_cwd = true;
    mount = [];
    network = no_network;
    capabilities = [];
    seccomp_allow = codes "perf_event_open" ∷ [];
    seccomp_deny = [];
  };
  limits = record {
    memory = none;
    swap = none;
    memory_high = none;
    cpu = none;
    cpu_shares = none;
    pids = none;
  };
}

abbrev toml : Toml ℕ ℕ ℕ
toml = record {
  parse_table = λ text. some base;
  parse_config = λ text. some loaded;
  try_into = λ t. some loaded;
  is_syscall = λ name. true;
}

xh : load_with_raw toml files (codes "xh") ≡ ok (loaded, base)
unfolding load_with_raw read validate_app_name is_valid_name find_place search_dirs join_path
    read_override check_config check_syscall_names check_names text_eq
xh = refl

load_with_raw-IsLoaded_example : IsLoaded toml files (codes "xh") loaded
load_with_raw-IsLoaded_example = load_with_raw-IsLoaded toml files (codes "xh") loaded base xh
