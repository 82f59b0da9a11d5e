-- ===== src/Store/Tests.antt =====
-- Digests and marker names on concrete texts.
use climate.Common.{codes, ◌∷◌, ◌++◌, true, ok, ◌≡◌, refl, none, some}
use climate.Store.Trees.{
  Entries, entry, file, symlink, directory, nothing, grant_writable, remove_tree,
}
use climate.Store.Trees.Removed.{files_of, remove_tree-grant_writable}
use climate.Store.{is_clean, digest_path}
use climate.Store.Names.{digest_path_sound, marker_name-injective}

sha : digest_path (codes "sha256:ab") ≡ ok (codes "sha256", codes "ab")
unfolding digest_path is_clean
sha = refl

digest_path_sound_example :
    (codes "sha256" ++ (b':' ∷ codes "ab") ≡ codes "sha256:ab")
    × (is_clean (codes "sha256") ≡ true)
    × (is_clean (codes "ab") ≡ true)
digest_path_sound_example = digest_path_sound (codes "sha256:ab") (codes "sha256") (codes "ab") sha

marker_name-injective_example : codes "a/b" ≡ codes "a/b"
marker_name-injective_example =
    marker_name-injective (codes "a/b") (codes "a/b") (refl, (refl, (refl, tt)))
      (refl, (refl, (refl, tt))) refl

-- A layer with a directory that may not be written to.
abbrev unpacked : Entries
unpacked = entry (codes "etc") (directory 320 (entry (codes "passwd") (file 292) nothing)) nothing

remove_tree-grant_writable_example :
    (remove_tree (some (directory 493 unpacked)) ≡ ok none)
    × (remove_tree (some (symlink (codes "/etc"))) ≡ ok none)
    × (files_of (grant_writable (directory 493 unpacked)) ≡ files_of (directory 493 unpacked))
remove_tree-grant_writable_example = remove_tree-grant_writable 493 unpacked (codes "/etc")
