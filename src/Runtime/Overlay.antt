-- ===== src/Runtime/Overlay.antt =====
-- The root filesystem of a container: `materialise_stub`, `Mount::new` and the dropping of a `Mount`,
-- of src/runtime.rs. What the system can make, and the programs fuse-overlayfs and fusermount3, are
-- parameters.
pub mod Layers
pub mod Dirs
pub mod Tests
use climate.Common.{
  Text, codes, text_eq, trim_start, join, is_empty, retain, not, if◌then◌else◌, Option, none, some,
  List, [], ◌∷◌, ◌++◌, Bool, true, false, Result, ok, err, ◌>>=◌, ◌>>◌, guard, any,
}
use climate.Common.Error.{Error, no_layers, fuse_missing, fuse_failed, not_made, layer_missing}
use climate.Spec.Paths.{join_path}
use climate.Spec.Mounts.{MountPoint}
use climate.Store.{Store, Path2, path_eq, digest_path}
use climate.Runtime.Wait.{lowerdir_arg}

-- The directories under overlays/, and those with a filesystem mounted on their `merged`.
pub record Overlays : Type 0 where
  pub dirs : List Text
  pub mounted : List Text

pub record System : Type 0 where
  -- whether a directory or a file can be made at a path
  pub can_make : Text → Bool
  pub parent : Text → Option Text
  -- the directory `images` of the store
  pub images : Text
  -- `fuse-overlayfs -o <options> <merged>`, where the program is there: whether it went well
  pub fuse_overlayfs : Text → Text → Option Bool
  pub fusermount3 : Text → Option Bool

pub data Made : Type 0 where
  directory : Text → Made
  file : Text → Text → Made

unfoldable pub target_of : Text → MountPoint → Text
target_of stub point = join_path stub (trim_start b'/' point.path)

abbrev pub push : {A : Type 0} → List A → A → List A
push [] y = y ∷ []
push (x ∷ xs) y = x ∷ push xs y

abbrev pub reversed : {A : Type 0} → List A → List A
reversed [] = []
reversed (x ∷ xs) = push (reversed xs) x

-- What is given with `-o`: the upper and the work directory come with a build.
abbrev pub writable_option : Option (Text × Text) → Text
writable_option none = []
writable_option (some (upper, work)) = codes ",upperdir=" ++ (upper ++ (codes ",workdir=" ++ work))

abbrev pub checked_dirs : Option (Text × Text) → Result Error (Option (Text × Text))
checked_dirs none = ok none
checked_dirs (some (upper, work)) = do
  u ← lowerdir_arg upper
  w ← lowerdir_arg work
  ok (some (u, w))

abbrev pub merged_of : Text → Text
merged_of dir = join_path dir (codes "merged")

abbrev pub stub_of : Text → Text
stub_of dir = join_path dir (codes "stub")

module _ (system : System) where
  abbrev pub make : Made → Text → Result Error (List Made)
  make made path = if system.can_make path then ok (made ∷ []) else err (not_made path)

  abbrev make_parent : Option Text → Result Error (List Made)
  make_parent none = ok []
  make_parent (some parent) = make (directory parent) parent

  -- What is made for one mount point, in order.
  unfoldable pub materialise_point : Text → MountPoint → Result Error (List Made)
  materialise_point stub point =
      if point.is_file
      then (do
        parents ← make_parent (system.parent (target_of stub point))
        made ← make (file (target_of stub point) point.contents) (target_of stub point)
        ok (parents ++ made))
      else make (directory (target_of stub point)) (target_of stub point)

  unfoldable pub materialise_stub : Text → List MountPoint → Result Error (List Made)
  materialise_stub stub [] = ok []
  materialise_stub stub (point ∷ points) = do
    made ← materialise_point stub point
    rest ← materialise_stub stub points
    ok (made ++ rest)

  unfoldable pub layer_dir : Path2 → Text
  layer_dir (algo, hex) = join_path (join_path (join_path system.images (codes "layers")) algo) hex

  -- The arguments for the layers, in the order given.
  unfoldable pub layer_args : Store → List Text → Result Error (List Text)
  layer_args s [] = ok []
  layer_args s (digest ∷ digests) = do
    path ← digest_path digest
    guard (any (λ p. path_eq p path) s.layers) (layer_missing digest)
    arg ← lowerdir_arg (layer_dir path)
    args ← layer_args s digests
    ok (arg ∷ args)

  -- The topmost layer first, under the stub.
  unfoldable pub lowerdirs : Store → Text → List Text → Result Error (List Text)
  lowerdirs s stub layers = do
    first ← lowerdir_arg stub
    args ← layer_args s (reversed layers)
    ok (first ∷ args)

  unfoldable pub mount_options :
      Store → Text → List Text → List MountPoint → Option (Text × Text) → Result Error Text
  mount_options s dir layers points writable = do
    made ← materialise_stub (stub_of dir) points
    lower ← lowerdirs s (stub_of dir) layers
    upper ← checked_dirs writable
    ok (codes "lowerdir=" ++ (join (codes ":") lower ++ writable_option upper))

  abbrev remove_dir : Text → Overlays → Overlays
  remove_dir dir o = record o { dirs = retain (λ d. not (text_eq d dir)) o.dirs }

  abbrev pub mounted_with : Text → Overlays → Option Bool → Result Error Text × Overlays
  mounted_with dir o none = (err fuse_missing, o)
  mounted_with dir o (some false) = (err fuse_failed, remove_dir dir o)
  mounted_with dir o (some true) = (ok (merged_of dir), record o { mounted = dir ∷ o.mounted })

  abbrev pub mount_with : Text → Overlays → Result Error Text → Result Error Text × Overlays
  mount_with dir o (err e) = (err e, o)
  mount_with dir o (ok options) = mounted_with dir o (system.fuse_overlayfs options (merged_of dir))

  -- `Mount::new`, in a directory whose name no other run has. What it had made before an error in the
  -- options stays.
  unfoldable pub mount_new :
      Store
      → Text
      → List Text
      → List MountPoint
      → Option (Text × Text)
      → Overlays
      → Result Error Text × Overlays
  mount_new s dir layers points writable o =
      if is_empty layers
      then (err no_layers, o)
      else if not (system.can_make (merged_of dir))
      then (err (not_made (merged_of dir)), o)
      else mount_with dir (record o { dirs = dir ∷ o.dirs })
          (mount_options s dir layers points writable)

  abbrev pub unmounted : Text → Overlays → Option Bool → Overlays
  unmounted dir o (some true) =
      remove_dir dir (record o { mounted = retain (λ d. not (text_eq d dir)) o.mounted })
  unmounted dir o (some false) = o
  unmounted dir o none = o

  -- `Drop`
  unfoldable pub drop_mount : Text → Overlays → Overlays
  drop_mount dir o = unmounted dir o (system.fusermount3 (merged_of dir))
