-- ===== src/Config/Names/Tests.antt =====
-- Two directories: one app in both, one in the second alone, and a file that is no definition.
use climate.Common.{
  Text, codes, text_in, text_eq, if◌then◌else◌, Option, none, some, List, [], ◌∷◌, true, ◌≡◌, ◌↔◌,
  refl,
}
use climate.Seccomp.Sets.{IsAscending}
use climate.Seccomp.{extend, insert_name, text_less}
use climate.Spec.Paths.{join_path}
use climate.Config.Names.{in_dirs, in_groups, apps_of, app_of, split_last, app_names}
use climate.Config.Names.Listed.{IsListed, app_names-IsListed}

abbrev read_dir : Text → Option (List Text)
read_dir path =
    if text_eq path (codes "/a")
    then some (codes "j" ∷ codes "README" ∷ [])
    else if text_eq path (codes "/a/j")
    then some (codes "jq.toml" ∷ codes "notes.txt" ∷ codes ".toml" ∷ [])
    else if text_eq path (codes "/b")
    then some (codes "b" ∷ codes "j" ∷ [])
    else if text_eq path (codes "/b/b")
    then some (codes "butane.toml" ∷ [])
    else if text_eq path (codes "/b/j")
    then some (codes "jq.toml" ∷ [])
    else none

abbrev dirs : List Text
dirs = codes "/a" ∷ codes "/b" ∷ codes "/missing" ∷ []

listed : app_names read_dir dirs ≡ codes "butane" ∷ codes "jq" ∷ []
unfolding app_names extend in_dirs text_eq in_groups join_path apps_of app_of split_last insert_name
    text_less
listed = refl

app_names-IsListed_example :
    IsAscending (app_names read_dir dirs)
    × ((app : Text) → (text_in (app_names read_dir dirs) app ≡ true) ↔ IsListed read_dir dirs app)
app_names-IsListed_example = app_names-IsListed read_dir dirs
