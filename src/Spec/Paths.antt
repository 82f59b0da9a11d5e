-- ===== src/Spec/Paths.antt =====
-- The paths of src/spec.rs as texts, with the operations of the standard library on them, and
-- `expand_path`.
use climate.Common.{
  Text, codes, text_eq, starts_with, split, trim_start, is_empty, all, ◌&&◌, ◌||◌, if◌then◌else◌,
  Option, ◌∷◌, ◌++◌, Bool, ends_with, Result, ok, err, ◌>>=◌, context,
}
use climate.Common.Error.{Error, not_absolute, no_home}

abbrev pub is_absolute : Text → Bool
is_absolute path = starts_with path (codes "/")

-- `path == Path::new("/")`: paths are compared by their components, where an empty one and one that
-- is `.` do not count.
abbrev pub is_skipped : Text → Bool
is_skipped component = is_empty component || text_eq component (codes ".")

unfoldable pub is_root : Text → Bool
is_root path = is_absolute path && all is_skipped (split b'/' path)

-- `Path::join`
unfoldable pub join_path : Text → Text → Text
join_path base path =
    if is_absolute path
    then path
    else if is_empty base || ends_with base b'/'
    then base ++ path
    else base ++ (b'/' ∷ path)

abbrev pub in_home : Text → Option Text → Result Error Text
in_home path home = do
  dir ← context home no_home
  ok (join_path dir (trim_start b'/' (trim_start b'~' path)))

abbrev pub is_in_home : Text → Bool
is_in_home path = text_eq path (codes "~") || starts_with path (codes "~/")

unfoldable pub expand_path : Option Text → Text → Result Error Text
expand_path home path = do
  expanded ← (if is_in_home path then in_home path home else ok path)
  if is_absolute expanded then ok expanded else err (not_absolute path)
