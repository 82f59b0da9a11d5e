-- ===== src/Runtime/Overlay/Tests.antt =====
-- An image of two layers.
use climate.Common.{
  Text, codes, text_eq, join, split, none, some, List, [], ◌∷◌, true, ok, ◌≡◌, refl,
}
use climate.Spec.Mounts.{MountPoint, dir_point, file_point}
use climate.Spec.Paths.{join_path}
use climate.Store.{Store, digest_path, is_clean}
use climate.Runtime.Wait.{lowerdir_arg}
use climate.Runtime.Overlay.{
  System, Overlays, target_of, materialise_point, materialise_stub, layer_dir, layer_args,
  lowerdirs, mount_options, mount_new, drop_mount, reversed,
}
use climate.Runtime.Overlay.Layers.{ArgsOf, split-lowerdirs}
use climate.Runtime.Overlay.Dirs.{drop_mount-mount_new}

abbrev pub system : System
system = record {
  can_make = λ path. true;
  parent = λ path. some (codes "/run/x/stub/etc");
  images = codes "/data/images";
  fuse_overlayfs = λ options merged. some true;
  fusermount3 = λ merged. some true;
}

abbrev store : Store
store = record {
  refs = [];
  blobs = [];
  layers = (codes "sha256", codes "a1") ∷ (codes "sha256", codes "b2") ∷ [];
  others = [];
}

abbrev layers : List Text
layers = codes "sha256:a1" ∷ codes "sha256:b2" ∷ []

abbrev pub overlays : Overlays
overlays = record { dirs = codes "/run/old" ∷ []; mounted = [] }

abbrev points : List MountPoint
points = dir_point (codes "/proc") ∷ file_point (codes "/etc/hosts") ∷ []

options_test :
    mount_options system store (codes "/run/x") layers points none
    ≡ ok (codes "lowerdir=/run/x/stub:/data/images/layers/sha256/b2:/data/images/layers/sha256/a1")
unfolding mount_options materialise_stub materialise_point target_of lowerdirs layer_args layer_dir
    join_path lowerdir_arg digest_path is_clean text_eq
options_test = refl

abbrev dirs : List Text
dirs =
    codes "/run/x/stub"
    ∷ codes "/data/images/layers/sha256/b2"
    ∷ codes "/data/images/layers/sha256/a1"
    ∷ []

lowerdirs_dirs : lowerdirs system store (codes "/run/x/stub") layers ≡ ok dirs
unfolding lowerdirs layer_args layer_dir join_path lowerdir_arg digest_path is_clean text_eq
lowerdirs_dirs = refl

split-lowerdirs_example :
    (args : List Text) × (split b':' (join (codes ":") dirs) ≡ codes "/run/x/stub" ∷ args)
    × ArgsOf system store (reversed layers) args
split-lowerdirs_example =
    split-lowerdirs system store (codes "/run/x/stub") layers dirs lowerdirs_dirs

mounted :
    (mount_new system store (codes "/run/x") layers points none overlays).0
    ≡ ok (codes "/run/x/merged")
unfolding mount_new mount_options materialise_stub materialise_point target_of lowerdirs layer_args
    layer_dir join_path lowerdir_arg digest_path is_clean text_eq
mounted = refl

drop_mount-mount_new_example :
    drop_mount system
      (codes "/run/x")
      (mount_new system store (codes "/run/x") layers points none overlays).1
    ≡ overlays
unfolding text_eq
drop_mount-mount_new_example =
    drop_mount-mount_new system store (codes "/run/x") layers points none overlays
      (codes "/run/x/merged") refl refl refl mounted
