-- ===== src/Command.antt =====
-- src/main.rs: what the program does of its arguments, and which apps a subcommand is about. The
-- arguments of the subcommands are parsed by the argp package, which is a parameter.
pub mod Link
pub mod Dispatch
pub mod Checked
pub mod Tests
use climate.Common.{
  Text, codes, text_eq, split, retain, all, is_empty, not, ◌&&◌, ◌||◌, ◌==◌, if◌then◌else◌, Option,
  none, some, List, [], ◌∷◌, ◌++◌, Bool, true, false, ℕ, zero, suc, ◌+◌, length, Result, ok, err,
  guard, context, ◌>>=◌,
}
use climate.Common.Error.{Error, no_apps_named, no_socket_path, usage, check_failed, no_app_named}
use climate.Spec.Paths.{is_skipped}

-- The apps that are meant: `-a`, or those that are named.
unfoldable pub names_of : List Text → Bool → List Text → Result Error (List Text)
names_of app_names true apps = ok app_names
names_of app_names false [] = err no_apps_named
names_of app_names false (app ∷ apps) = ok (app ∷ apps)

-- `check` of the command line; `checked` is the loading of a definition and `spec::check` of it.
abbrev pub failures : (Text → Result Error (Unit {0})) → List Text → ℕ
failures checked [] = 0
failures checked (app ∷ apps) = elim (checked app) [
  | ok done ↦ failures checked apps
  | err e ↦ 1 + failures checked apps
]

unfoldable pub check_apps :
    List Text → (Text → Result Error (Unit {0})) → Bool → List Text → Result Error (Unit {0})
check_apps app_names checked every apps = do
  names ← names_of app_names every apps
  guard (failures checked names == 0) (check_failed (failures checked names) (length names))

pub data Command : Type 0 where
  check : Bool → List Text → Command
  clean list : Command
  link : Bool → Bool → List Text → Command
  pull : Bool → Bool → Option Text → Command
  run : List Text → Command
  show : Text → Bool → Command
  sync : Bool → Command

pub record Cli : Type 0 where
  pub version : Bool
  pub command : Option Command

-- What is called then.
pub data Call : Type 0 where
  run_app : Text → List Text → Call
  hook : Text → Call
  helper : Bool → Call
  print_version print_help : Call
  subcommand : Command → Call

abbrev last : List Text → Option Text
last [] = none
last (f ∷ []) = some f
last (f ∷ g ∷ fs) = last (g ∷ fs)

abbrev unless_parent : Option Text → Option Text
unless_parent none = none
unless_parent (some f) = if text_eq f (codes "..") then none else some f

unfoldable pub hook_arg : Text
hook_arg = codes "__lo-hook"

unfoldable pub helper_arg : Text
helper_arg = codes "__lo-helper"

unfoldable pub localnet_arg : Text
localnet_arg = codes "localnet"

-- The arguments that the hook and the helper of src/forward.rs are started with; `exe` is the path of the
-- program.
unfoldable pub hook_args : Text → List Text
hook_args socket = codes "climate" ∷ hook_arg ∷ socket ∷ []

unfoldable pub helper_args : Text → Bool → List Text
helper_args exe localnet = exe ∷ helper_arg ∷ (if localnet then localnet_arg ∷ [] else [])

-- `Path::file_name`
unfoldable pub file_name : Text → Option Text
file_name path = unless_parent (last (retain (λ f. not (is_skipped f)) (split b'/' path)))

abbrev first : List Text → Option Text
first [] = none
first (arg ∷ args) = some arg

abbrev is_localnet : Option Text → Bool
is_localnet none = false
is_localnet (some arg) = text_eq arg localnet_arg

abbrev app_call : List Text → Result Error Call
app_call [] = err no_app_named
app_call (app ∷ args) = ok (run_app app args)

abbrev command_call : Option Command → Result Error Call
command_call none = ok print_help
command_call (some (run cmd)) = app_call cmd
command_call (some command) = ok (subcommand command)

abbrev pub other_name : Option Text → Option Text
other_name none = none
other_name (some name) = if text_eq name (codes "climate") then none else some name

-- The app that the program was started as, by its own name.
unfoldable pub app_link : Option Text → Option Text
app_link none = none
app_link (some argv0) = other_name (file_name argv0)

module _ (parse_args : List Text → Option Cli) where
  unfoldable pub cli_call : List Text → Result Error Call
  cli_call argv = do
    cli ← context (parse_args argv) usage
    if cli.version then ok print_version else command_call cli.command

  abbrev own_call : List Text → List Text → Result Error Call
  own_call argv [] = cli_call argv
  own_call argv (arg ∷ args) =
      if text_eq arg hook_arg
      then (do socket ← context (first args) no_socket_path; ok (hook socket))
      else if text_eq arg helper_arg
      then ok (helper (is_localnet (first args)))
      else cli_call argv

  abbrev pub call_of : List Text → List Text → Option Text → Result Error Call
  call_of argv args (some app) = ok (run_app app args)
  call_of argv args none = own_call argv args

  unfoldable pub dispatch : List Text → Result Error Call
  dispatch [] = own_call [] []
  dispatch (argv0 ∷ args) = call_of (argv0 ∷ args) args (app_link (some argv0))
