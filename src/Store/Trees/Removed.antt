-- ===== src/Store/Trees/Removed.antt =====
-- A tree is removed whatever permissions it came with.
use climate.Common.{
  Text, ◌&&◌, ◌||◌, none, some, List, [], ◌∷◌, ◌++◌, Bool, true, false, ℕ, ok, ◌≡◌, refl, ap₂,
  arith,
}
use climate.Store.Trees.{
  Tree, Entries, file, symlink, directory, nothing, entry, with_owner, grant_writable, grant_all,
  may_list, may_remove, is_nothing, can_remove, can_remove_all, remove_dir_all, remove_tree,
}

or_true : (b : Bool) → (true && (b || true) && true) ≡ true
or_true true = refl
or_true false = refl

with_owner-may_list : (mode : ℕ) → may_list (with_owner mode) ≡ true
unfolding with_owner
with_owner-may_list mode = ground arith

with_owner-may_remove : (mode : ℕ) → may_remove (with_owner mode) ≡ true
unfolding with_owner
with_owner-may_remove mode = ground arith

-- The files and the symlinks of a tree by their paths.
abbrev under : Text → List (Text × Tree) → List (Text × Tree)
under name [] = []
under name ((path, tree) ∷ files) = (name ++ b'/' ∷ path, tree) ∷ under name files

unfoldable mutual
  pub files_of : Tree → List (Text × Tree)
  files_of (file mode) = ([], file mode) ∷ []
  files_of (symlink target) = ([], symlink target) ∷ []
  files_of (directory mode entries) = files_in entries

  pub files_in : Entries → List (Text × Tree)
  files_in nothing = []
  files_in (entry name tree entries) = under name (files_of tree) ++ files_in entries

mutual
  unfolding grant_writable can_remove

  grant_writable-can_remove : (t : Tree) → can_remove (grant_writable t) ≡ true
  grant_writable-can_remove (file mode) = refl
  grant_writable-can_remove (symlink target) = refl
  grant_writable-can_remove (directory mode entries) =
      rw (with_owner-may_list mode, with_owner-may_remove mode, grant_all-can_remove_all entries)
        (or_true (is_nothing (grant_all entries)))

  grant_all-can_remove_all : (ts : Entries) → can_remove_all (grant_all ts) ≡ true
  grant_all-can_remove_all nothing = refl
  grant_all-can_remove_all (entry name tree entries) =
      rw (grant_writable-can_remove tree, grant_all-can_remove_all entries) refl

mutual
  unfolding grant_writable files_of

  files_of-grant_writable : (t : Tree) → files_of (grant_writable t) ≡ files_of t
  files_of-grant_writable (file mode) = refl
  files_of-grant_writable (symlink target) = refl
  files_of-grant_writable (directory mode entries) = files_in-grant_all entries

  files_in-grant_all : (ts : Entries) → files_in (grant_all ts) ≡ files_in ts
  files_in-grant_all nothing = refl
  files_in-grant_all (entry name tree entries) =
      ap₂ (λ fs gs. under name fs ++ gs) (files_of-grant_writable tree) (files_in-grant_all entries)

-- A directory tree is removed whatever permissions its directories came with, in whatever depth, and so is
-- a symlink, which is not followed. Up to then only directories get other permissions: the files and the
-- symlinks have theirs.
pub remove_tree-grant_writable :
    (mode : ℕ) (entries : Entries) (target : Text)
    → (remove_tree (some (directory mode entries)) ≡ ok none)
      × (remove_tree (some (symlink target)) ≡ ok none)
      × (files_of (grant_writable (directory mode entries)) ≡ files_of (directory mode entries))
unfolding remove_tree remove_dir_all grant_writable
remove_tree-grant_writable mode entries target = (
  rw (grant_writable-can_remove (directory mode entries)) refl,
  refl,
  files_of-grant_writable (directory mode entries),
)
