-- ===== src/Show.antt =====
-- src/show.rs: a definition as it is printed, a text for each `println!`. How the toml and oci_spec
-- packages write a value is the parameter `Display`.
pub mod Headed
pub mod Greyed
pub mod Tests
use climate.Common.{
  contains_text, ends_with_text, Text, codes, starts_with, contains, is_empty, not, ◌&&◌, ◌||◌,
  if◌then◌else◌, Option, none, some, List, [], ◌∷◌, ◌++◌, Bool, true, false, ℕ, Result, ok, ◌>>=◌,
}
use climate.Common.Error.{Error}
use climate.Common.Number.{ℤ}
use climate.Config.{
  AppMeta, AppConfig, ImageConfig, RunConfig, Entrypoint, string, list, Network, full, no_network,
  localhost, localnet,
}
use climate.Config.Merge.{Value, Table, plain, table, nil, entry, get}
use climate.Config.Load.{Files, Toml, load_with_raw}
use climate.Spec.Limits.{LimitsConfig}

pub record Display (F K : Type 0) : Type 0 where
  pub string : Text → Text
  pub strings : List Text → Text
  pub boolean : Bool → Text
  pub float : F → Text
  pub integer : ℤ → Text
  pub capability : K → Text

pub record Printer : Type 0 where
  pub color : Bool
  pub defaults : Bool

unfoldable pub gray : Text
gray = 27 ∷ codes "[90m"

unfoldable pub reset : Text
reset = 27 ∷ codes "[0m"

abbrev pub newline : Text
newline = 10 ∷ []

unfoldable pub defaulted : Printer → Text → List Text
defaulted p line =
    if not p.defaults then [] else if p.color then (gray ++ (line ++ reset)) ∷ [] else line ∷ []

unfoldable pub key : Printer → Text → Text → Bool → List Text
key p name value is_default =
    let line = name ++ (codes " = " ++ value) in if is_default then defaulted p line else line ∷ []

unfoldable pub limit : Printer → Text → Option Text → Text → List Text
limit p name none unset = defaulted p (codes "# " ++ (name ++ (codes " is unset: " ++ unset)))
limit p name (some value) unset = key p name value false

-- `Option::map`
abbrev pub written : {A : Type 0} → (A → Text) → Option A → Option Text
written f none = none
written f (some a) = some (f a)

abbrev pub as_table : {V : Type 0} → Option (Value V) → Option (Table V)
as_table none = none
as_table (some (plain v)) = none
as_table (some (table t)) = some t

abbrev pub lacks : {V : Type 0} → Option (Value V) → Bool
lacks none = true
lacks (some v) = false

abbrev pub key_absent : {V : Type 0} → Text → Option (Table V) → Bool
key_absent name none = true
key_absent name (some t) = lacks (get name t)

unfoldable pub absent : {V : Type 0} → Table V → Text → Text → Bool
absent raw section name = key_absent name (as_table (get section raw))

abbrev pub has_keys : {V : Type 0} → Option (Table V) → Bool
has_keys none = false
has_keys (some nil) = false
has_keys (some (entry k v rest)) = true

unfoldable pub header : {V : Type 0} → Printer → Table V → Text → List Text
header p raw section =
    if p.defaults || has_keys (as_table (get section raw))
    then (newline ++ (codes "[" ++ (section ++ codes "]"))) ∷ []
    else []

module _ {F K : Type 0} (display : Display F K) where
  unfoldable pub entrypoint_value : Entrypoint → Text
  entrypoint_value (string program) = display.string program
  entrypoint_value (list argv) = display.strings argv

  unfoldable pub network_value : Network → Text
  network_value full = display.string (codes "full")
  network_value no_network = display.string (codes "none")
  network_value localhost = display.string (codes "localhost")
  network_value localnet = display.string (codes "localnet")

  unfoldable pub script_value : Text → Text
  script_value script =
      if contains script 10 && not (contains_text script (codes "'''"))
      then codes "'''" ++ (newline ++ (script ++ codes "'''"))
      else display.string script

  abbrev names : List K → List Text
  names [] = []
  names (c ∷ cs) = display.capability c ∷ names cs

  unfoldable pub capabilities_value : List K → Text
  capabilities_value capabilities = display.strings (names capabilities)

  unfoldable pub app_lines : Printer → AppMeta → List Text
  app_lines p app =
      codes "[app]" ∷ []
      ++ (key p (codes "name") (display.string app.name) false
          ++ (key p (codes "description") (display.string app.description) false
              ++ key p (codes "license") (display.string app.license) false))

  abbrev pub install_lines : Printer → Option Text → List Text
  install_lines p none = defaulted p (codes "# install is unset: the image runs as pulled")
  install_lines p (some script) = (codes "install = " ++ script_value script) ∷ []

  module _ {V : Type 0} (p : Printer) (raw : Table V) where
    unfoldable pub image_lines : ImageConfig → List Text
    image_lines image =
        (newline ++ codes "[image]") ∷ []
        ++ (key p (codes "reference") (display.string image.reference) false
            ++ (key p (codes "pull") (display.boolean image.pull)
                  (absent raw (codes "image") (codes "pull"))
                ++ install_lines p image.install))

    abbrev pub entrypoint_lines : Option Entrypoint → List Text
    entrypoint_lines none =
        defaulted p (codes "# entrypoint is unset: the image's own entrypoint runs")
    entrypoint_lines (some entrypoint) =
        key p (codes "entrypoint") (entrypoint_value entrypoint) false

    abbrev pub run_key : Text → Text → List Text
    run_key name value = key p name value (absent raw (codes "run") name)

    unfoldable pub run_lines : RunConfig K → List Text
    run_lines run =
        entrypoint_lines run.entrypoint
        ++ (run_key (codes "args") (display.strings run.args)
            ++ (run_key (codes "env") (display.strings run.env)
                ++ (run_key (codes "mount-cwd") (display.boolean run.mount_cwd)
                    ++ (run_key (codes "mount") (display.strings run.mount)
                        ++ (run_key (codes "network") (network_value run.network)
                            ++ (run_key (codes "capabilities") (capabilities_value run.capabilities)
                                ++ (run_key (codes "seccomp-allow")
                                      (display.strings run.seccomp_allow)
                                    ++ run_key (codes "seccomp-deny")
                                        (display.strings run.seccomp_deny))))))))

    unfoldable pub limit_lines : LimitsConfig F → List Text
    limit_lines limits =
        limit p (codes "memory") (written display.string limits.memory)
          (codes "the app may use as much memory as it likes")
        ++ (limit p (codes "swap") (written display.string limits.swap)
              (codes "the app may swap as much as it likes")
            ++ (limit p (codes "memory-high") (written display.string limits.memory_high)
                  (codes "the app is never throttled, only killed at the memory limit")
                ++ (limit p (codes "cpu") (written display.float limits.cpu)
                      (codes "the app may use every core")
                    ++ (limit p (codes "cpu-shares") (written display.integer limits.cpu_shares)
                          (codes "the app competes for the CPU on equal terms")
                        ++ limit p (codes "pids") (written display.integer limits.pids)
                            (codes "the app may start as many processes as it likes")))))

    unfoldable pub shown : AppConfig F K → List Text
    shown config =
        app_lines p config.app
        ++ (image_lines config.image
            ++ (header p raw (codes "run")
                ++ (run_lines config.run
                    ++ (header p raw (codes "limits") ++ limit_lines config.limits))))

  -- `is_terminal` is whether the standard output is a terminal.
  unfoldable pub show :
      {V : Type 0} → Toml V F K → Files → Text → Bool → Bool → Result Error (List Text)
  show toml files app_name defaults is_terminal = do
    loaded ← load_with_raw toml files app_name
    ok (shown (record { color = is_terminal; defaults = defaults }) loaded.1 loaded.0)
