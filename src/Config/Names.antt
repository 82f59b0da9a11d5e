-- ===== src/Config/Names.antt =====
-- `app_names` of src/config.rs: the apps that have a definition in one of the directories. What a
-- directory holds is a parameter.
pub mod Stems
pub mod Groups
pub mod Listed
pub mod Tests
use climate.Common.{
  Text, codes, text_eq, is_empty, ◌==◌, ◌||◌, not, if◌then◌else◌, Option, none, some, List, [], ◌∷◌,
  ◌++◌, Bool, true, false, ℕ,
}
use climate.Seccomp.{extend}
use climate.Spec.Paths.{join_path}

-- `rsplit_once` at a character.
unfoldable pub split_last : ℕ → Text → Option (Text × Text)
split_last b [] = none
split_last b (c ∷ s) = elim (split_last b s) [
  | some (s', t) ↦ some (c ∷ s', t)
  | none ↦ if c == b then some ([], s) else none
]

-- `extension()` and `file_stem()` of a file's name: a dot in front is none that parts them.
abbrev pub toml_stem : Option (Text × Text) → Option Text
toml_stem none = none
toml_stem (some (stem, extension)) =
    if is_empty stem || not (text_eq extension (codes "toml")) then none else some stem

unfoldable pub app_of : Text → Option Text
app_of name = toml_stem (split_last b'.' name)

abbrev pub push_app : Option Text → List Text → List Text
push_app none apps = apps
push_app (some app) apps = app ∷ apps

unfoldable pub apps_of : List Text → List Text
apps_of [] = []
apps_of (name ∷ names) = push_app (app_of name) (apps_of names)

-- The names of a directory's entries, if it is a directory that can be read.
module _ (read_dir : Text → Option (List Text)) where
  abbrev pub in_group : Option (List Text) → List Text
  in_group none = []
  in_group (some names) = apps_of names

  unfoldable pub in_groups : Text → List Text → List Text
  in_groups dir [] = []
  in_groups dir (group ∷ groups) = in_group (read_dir (join_path dir group)) ++ in_groups dir groups

  abbrev pub in_dir : Text → Option (List Text) → List Text
  in_dir dir none = []
  in_dir dir (some groups) = in_groups dir groups

  unfoldable pub in_dirs : List Text → List Text
  in_dirs [] = []
  in_dirs (dir ∷ dirs) = in_dir dir (read_dir dir) ++ in_dirs dirs

  -- A `BTreeSet`, which sorts the names and keeps each once.
  unfoldable pub app_names : List Text → List Text
  app_names dirs = extend (in_dirs dirs) []
