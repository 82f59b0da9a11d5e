-- ===== src/Store/Trees.antt =====
-- `remove_tree` of src/store.rs: a directory tree with its permissions. The files are the user's own, so
-- their permissions can be set.
pub mod Removed
use climate.Common.{
  Text, ◌&&◌, ◌||◌, ◌==◌, leb, Option, none, some, List, [], ◌∷◌, ◌++◌, Bool, true, false, ℕ, ◌+◌,
  ◌*◌, ◌/◌, ◌%◌, Result, ok, err, if◌then◌else◌,
}
use climate.Common.Error.{Error, not_directory, not_emptied}

mutual
  pub data Tree : Type 0 where
    file : ℕ → Tree
    symlink : Text → Tree
    directory : ℕ → Entries → Tree

  pub data Entries : Type 0 where
    nothing : Entries
    entry : Text → Tree → Entries → Entries

-- `mode | 0o700`
unfoldable pub with_owner : ℕ → ℕ
with_owner mode = mode / 512 * 512 + 448 + mode % 64

-- `grant_writable`, and the loop over a directory's entries, of which only directories are followed.
unfoldable mutual
  pub grant_writable : Tree → Tree
  grant_writable (file mode) = file mode
  grant_writable (symlink target) = symlink target
  grant_writable (directory mode entries) = directory (with_owner mode) (grant_all entries)

  pub grant_all : Entries → Entries
  grant_all nothing = nothing
  grant_all (entry name tree entries) = entry name (grant_writable tree) (grant_all entries)

-- The owner's bits: a directory can be listed, and an entry can be removed from it.
abbrev pub may_list : ℕ → Bool
may_list mode = mode / 256 % 2 == 1

abbrev pub may_remove : ℕ → Bool
may_remove mode = mode / 128 % 2 == 1 && mode / 64 % 2 == 1

abbrev pub is_nothing : Entries → Bool
is_nothing nothing = true
is_nothing (entry name tree entries) = false

-- What the system asks for to remove a tree.
unfoldable mutual
  pub can_remove : Tree → Bool
  can_remove (file mode) = true
  can_remove (symlink target) = true
  can_remove (directory mode entries) =
      may_list mode && ((is_nothing entries || may_remove mode) && can_remove_all entries)

  pub can_remove_all : Entries → Bool
  can_remove_all nothing = true
  can_remove_all (entry name tree entries) = can_remove tree && can_remove_all entries

-- `remove_dir_all`, which removes a symlink itself and takes no file.
unfoldable pub remove_dir_all : Tree → Result Error (Option Tree)
remove_dir_all (file mode) = err not_directory
remove_dir_all (symlink target) = ok none
remove_dir_all (directory mode entries) =
    if can_remove (directory mode entries) then ok none else err not_emptied

-- What is at the path afterwards.
unfoldable pub remove_tree : Option Tree → Result Error (Option Tree)
remove_tree none = ok none
remove_tree (some (file mode)) = remove_dir_all (file mode)
remove_tree (some (symlink target)) = remove_dir_all (symlink target)
remove_tree (some (directory mode entries)) =
    remove_dir_all (grant_writable (directory mode entries))
