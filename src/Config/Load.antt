-- ===== src/Config/Load.antt =====
-- `search_dirs`, `validate_app_name`, `read`, `read_override`, `AppConfig::check` and `load_with_raw`
-- of src/config.rs, and `check_syscall_names` of src/seccomp.rs. The disk, the directories of the
-- user, and the packages that read TOML and know the names of syscalls are parameters.
pub mod Checked
use climate.Common.{
  Text, codes, text_eq, starts_with, is_empty, is_alphanumeric, all, ◌==◌, ◌&&◌, ◌||◌, not, take,
  if◌then◌else◌, Option, none, some, List, [], ◌∷◌, ◌++◌, Bool, true, false, ℕ, Result, ok, err,
  ◌>>=◌, ◌>>◌, guard, context,
}
use climate.Common.Error.{
  Error, invalid_app_name, unknown_app, unreadable, not_parsed, empty_description, empty_license,
  unknown_syscall, name_mismatch,
}
use climate.Config.{AppConfig, RunConfig}
use climate.Config.Merge.{Table, merge}
use climate.Spec.Paths.{join_path}

pub record Files : Type 0 where
  pub apps_dir : Option Text
  pub config_dir : Option Text
  pub data_dir : Option Text
  pub is_file : Text → Bool
  pub read_to_string : Text → Option Text

pub record Toml (V F K : Type 0) : Type 0 where
  pub parse_table : Text → Option (Table V)
  pub parse_config : Text → Option (AppConfig F K)
  pub try_into : Table V → Option (AppConfig F K)
  pub is_syscall : Text → Bool

abbrev pub in_climate : Text → Text → Text
in_climate name dir = join_path (join_path dir (codes "climate")) name

abbrev pub push_dir : Option Text → (Text → Text) → List Text
push_dir none place = []
push_dir (some dir) place = place dir ∷ []

abbrev pub system_dir : Text
system_dir = codes "/usr/share/climate/apps"

unfoldable pub search_dirs : Files → List Text
search_dirs files =
    push_dir files.apps_dir (λ dir. dir)
    ++ (push_dir files.config_dir (in_climate (codes "apps"))
        ++ (push_dir files.data_dir (in_climate (codes "apps")) ++ system_dir ∷ []))

abbrev pub is_allowed : ℕ → Bool
is_allowed b = is_alphanumeric b || b == b'+' || b == b'.' || b == b'_' || b == b'-'

unfoldable pub is_valid_name : Text → Bool
is_valid_name name =
    not (is_empty name) && not (starts_with name (codes ".")) && all is_allowed name

unfoldable pub validate_app_name : Text → Result Error (Unit {0})
validate_app_name name = guard (is_valid_name name) (invalid_app_name name)

-- `<group>/<name>.toml` below a directory.
abbrev pub place_of : Text → Text → Text
place_of name dir = join_path (join_path dir (take 1 name)) (name ++ codes ".toml")

unfoldable pub find_place : (Text → Bool) → Text → List Text → Option Text
find_place is_file name [] = none
find_place is_file name (dir ∷ dirs) =
    let later = find_place is_file name dirs in
    if is_file (place_of name dir) then some (place_of name dir) else later

unfoldable pub read : Files → Text → Result Error (Text × Text)
read files name = do
  validate_app_name name
  path ← context (find_place files.is_file name (search_dirs files)) (unknown_app name)
  text ← context (files.read_to_string path) (unreadable path)
  ok (path, text)

abbrev pub read_if_file : Files → Text → Result Error (Option (Text × Text))
read_if_file files path =
    if files.is_file path
    then (do text ← context (files.read_to_string path) (unreadable path); ok (some (path, text)))
    else ok none

abbrev pub override_in : Files → Text → Option Text → Result Error (Option (Text × Text))
override_in files name none = ok none
override_in files name (some dir) =
    read_if_file files (place_of name (in_climate (codes "overrides") dir))

unfoldable pub read_override : Files → Text → Result Error (Option (Text × Text))
read_override files name = override_in files name files.config_dir

unfoldable pub check_names : (Text → Bool) → List Text → Result Error (Unit {0})
check_names is_syscall [] = ok tt
check_names is_syscall (name ∷ names) =
    guard (is_syscall name) (unknown_syscall name) >> check_names is_syscall names

unfoldable pub check_syscall_names :
    {K : Type 0} → (Text → Bool) → RunConfig K → Result Error (Unit {0})
check_syscall_names is_syscall run = check_names is_syscall (run.seccomp_allow ++ run.seccomp_deny)

module _ {V F K : Type 0} (toml : Toml V F K) where
  unfoldable pub check_config : Text → Text → AppConfig F K → Result Error (Unit {0})
  check_config name origin config = do
    guard (text_eq config.app.name name) (name_mismatch origin config.app.name)
    guard (not (is_empty config.app.description)) (empty_description origin)
    guard (not (is_empty config.app.license)) (empty_license origin)
    check_syscall_names toml.is_syscall config.run

  -- The definition, the raw table, and where they come from.
  abbrev pub with_override :
      Text → Text → Table V → Option (Text × Text) → Result Error (AppConfig F K × Table V × Text)
  with_override path text raw none = do
    config ← context (toml.parse_config text) (not_parsed path)
    ok (config, raw, path)
  with_override path text raw (some (override_path, override_text)) = do
    over ← context (toml.parse_table override_text) (not_parsed override_path)
    let origin = path ++ (codes " with " ++ override_path)
    config ← context (toml.try_into (merge raw over)) (not_parsed origin)
    ok (config, merge raw over, origin)

  unfoldable pub load_with_raw : Files → Text → Result Error (AppConfig F K × Table V)
  load_with_raw files name = do
    file ← read files name
    raw ← context (toml.parse_table file.1) (not_parsed file.0)
    over ← read_override files name
    loaded ← with_override file.0 file.1 raw over
    check_config name loaded.2 loaded.0
    ok (loaded.0, loaded.1)

  -- The error is only printed.
  abbrev loaded_or_none : Result Error (AppConfig F K × Table V) → Option (AppConfig F K)
  loaded_or_none (ok (config, raw)) = some config
  loaded_or_none (err e) = none

  unfoldable pub load_or_warn : Files → Text → Option (AppConfig F K)
  load_or_warn files name = loaded_or_none (load_with_raw files name)
