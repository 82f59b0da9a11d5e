-- ===== src/Command/Link.antt =====
-- `create_symlink` and `link` of src/main.rs: the directory of the program, with the symlinks by which apps
-- are started. Whether an entry can be removed or made is a parameter.
pub mod Created
pub mod Linked
pub mod Unreplaced
use climate.Common.{
  Text, text_eq, text_eq_refl, split, retain, is_empty, not, ◌&&◌, ◌||◌, if◌then◌else◌, Option,
  none, some, List, [], ◌∷◌, Bool, true, false, Result, ok, err, guard, ◌≡◌, refl,
}
use climate.Common.Error.{Error, already_exists, not_linked, not_removed}
use climate.Common.Action.{Action, pure, asks, lift, change, each, ◌>>=◌, ◌>>◌}
use climate.Command.{names_of}
use climate.Spec.Paths.{is_skipped}

-- The directory of the program: its entries by their names.
pub data Entry : Type 0 where
  symlink : Text → Entry
  file directory : Entry

abbrev pub Dir : Type 0
Dir = List (Text × Entry)

unfoldable pub find : Text → Dir → Option Entry
find name [] = none
find name ((n, e) ∷ rest) = if text_eq n name then some e else find name rest

-- Two paths are the same if they have the same components: an empty one does not count, and one that is
-- `.` only in front.
abbrev later_components : List Text → List Text
later_components fields = retain (λ f. not (is_skipped f)) fields

abbrev components_of : List Text → List Text
components_of [] = []
components_of (f ∷ fields) = f ∷ later_components fields

abbrev texts_eq : List Text → List Text → Bool
texts_eq [] [] = true
texts_eq [] (t ∷ ts) = false
texts_eq (s ∷ ss) [] = false
texts_eq (s ∷ ss) (t ∷ ts) = text_eq s t && texts_eq ss ts

abbrev components : Text → List Text
components path = if is_empty path then [] else components_of (split b'/' path)

unfoldable pub same_path : Text → Text → Bool
same_path a b = texts_eq (components a) (components b)

pub same_path_refl : (path : Text) → same_path path path ≡ true
unfolding same_path
same_path_refl path = texts_eq_refl (components path)
  where
    texts_eq_refl : (ts : List Text) → texts_eq ts ts ≡ true
    texts_eq_refl [] = refl
    texts_eq_refl (t ∷ ts) = rw (text_eq_refl t, texts_eq_refl ts) refl

-- `read_link(link).is_ok_and(|existing| existing == target)`
abbrev pub points_to : Text → Option Entry → Bool
points_to target none = false
points_to target (some (symlink existing)) = same_path existing target
points_to target (some file) = false
points_to target (some directory) = false

-- Whether entries of a name can be removed and made.
pub record Rights : Type 0 where
  pub can_remove : Text → Bool
  pub can_create : Text → Bool

abbrev pub drop_entry : Text → Dir → Dir
drop_entry name s = retain (λ e. not (text_eq e.0 name)) s

abbrev is_directory : Entry → Bool
is_directory (symlink target) = false
is_directory file = false
is_directory directory = true

module _ (rights : Rights) where
  unfoldable pub remove_file : Text → Entry → Dir → Result Error Dir
  remove_file name e s =
      if is_directory e || not (rights.can_remove name)
      then err (not_removed name)
      else ok (drop_entry name s)

  -- A symlink is not made over an entry.
  unfoldable pub add_symlink : Text → Text → Dir → Result Error Dir
  add_symlink target name s = elim (find name s) [
    | none ↦
        if rights.can_create name then ok ((name, symlink target) ∷ s) else err (not_linked name)
    | some e ↦ err (not_linked name)
  ]

  -- What is in the way is removed, with `force`.
  unfoldable pub make_way : Text → Bool → Option Entry → Action Dir (Unit {0})
  make_way name force none = pure tt
  make_way name force (some e) = do
    lift (guard force (already_exists name))
    change (remove_file name e)

  abbrev pub link_unless : Bool → Action Dir (Unit {0}) → Action Dir (Unit {0})
  link_unless there m = if not there then m else pure tt

  unfoldable pub create_symlink : Text → Text → Bool → Action Dir (Unit {0})
  create_symlink target name force = do
    found ← asks (λ s. ok (find name s))
    link_unless (points_to target found)
        (make_way name force found >> change (add_symlink target name))

module _ (app_names : List Text) (loads : Text → Bool) (rights : Rights) (exe_name : Text) where
  -- An app whose definition cannot be loaded is left out; `loads` is whether `load_or_warn` gives one.
  unfoldable pub link_app : Bool → Text → Action Dir (Unit {0})
  link_app force app = if loads app then create_symlink rights exe_name app force else pure tt

  unfoldable pub link : Bool → Bool → List Text → Action Dir (Unit {0})
  link every force apps = do
    names ← lift (names_of app_names every apps)
    each (link_app force) names
