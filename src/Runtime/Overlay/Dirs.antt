-- ===== src/Runtime/Overlay/Dirs.antt =====
-- The directories of a run's root filesystem come and go.
use climate.Common.{
  Text, text_eq, text_eq_refl, text_in, is_empty, retain, not, Option, none, some, List, [], ◌∷◌,
  Bool, true, false, Result, ok, err, Bool-cases, inl, inr, ◌≡◌, refl, ap₂, arith,
}
use climate.Common.Error.{Error, no_layers, not_made}
use climate.Spec.Mounts.{MountPoint}
use climate.Store.{Store}
use climate.Runtime.Overlay.{
  System, Overlays, merged_of, mount_options, mount_with, mounted_with, mount_new, drop_mount,
}

retain-fresh :
    (dir : Text) (xs : List Text)
    → text_in xs dir ≡ false
    → retain (λ d. not (text_eq d dir)) xs ≡ xs
retain-fresh dir [] h = refl
retain-fresh dir (x ∷ xs) h = ground (arith, retain-fresh dir xs)

retain-added :
    (dir : Text) (xs : List Text)
    → text_in xs dir ≡ false
    → retain (λ d. not (text_eq d dir)) (dir ∷ xs) ≡ xs
retain-added dir xs h = ground (arith, retain-fresh dir xs h, text_eq_refl dir)

module _ (system : System) (dir merged : Text) where
  mounted_with-ok :
      (o : Overlays) (out : Option Bool)
      → (mounted_with system dir o out).0 ≡ ok merged
      → (mounted_with system dir o out).1 ≡ record o { mounted = dir ∷ o.mounted }
  mounted_with-ok o none h = cc
  mounted_with-ok o (some false) h = cc
  mounted_with-ok o (some true) h = refl

  mount_with-ok :
      (o : Overlays) (options : Result Error Text)
      → (mount_with system dir o options).0 ≡ ok merged
      → (mount_with system dir o options).1 ≡ record o { mounted = dir ∷ o.mounted }
  mount_with-ok o (err e) h = cc
  mount_with-ok o (ok options) h =
      mounted_with-ok o (system.fuse_overlayfs options (merged_of dir)) h

module _ (system : System) (s : Store) (dir : Text) (layers : List Text) (points : List MountPoint)
    (writable : Option (Text × Text)) (o : Overlays) where
  mount_new-ok :
      (merged : Text)
      → (mount_new system s dir layers points writable o).0 ≡ ok merged
      → (mount_new system s dir layers points writable o).1
        ≡ record { dirs = dir ∷ o.dirs; mounted = dir ∷ o.mounted }
  unfolding mount_new
  mount_new-ok merged h = elim (Bool-cases (is_empty layers)) [
    | inl bare ↦ let bad : err no_layers ≡ ok merged = rw bare at h in cc
    | inr full ↦ elim (Bool-cases (not (system.can_make (merged_of dir)))) [
      | inl refused ↦
          let bad : err (not_made (merged_of dir)) ≡ ok merged = rw (full, refused) at h in cc
      | inr made ↦
          rw (full, made)
            (mount_with-ok system dir merged (record o { dirs = dir ∷ o.dirs })
              (mount_options system s dir layers points writable) (rw (full, made) at h))
    ]
  ]

  -- A filesystem that was mounted in a directory of its own, and that is unmounted when it is dropped,
  -- leaves the directories as they were.
  pub drop_mount-mount_new :
      (merged : Text)
      → text_in o.dirs dir ≡ false
      → text_in o.mounted dir ≡ false
      → system.fusermount3 (merged_of dir) ≡ some true
      → (mount_new system s dir layers points writable o).0 ≡ ok merged
      → drop_mount system dir (mount_new system s dir layers points writable o).1 ≡ o
  unfolding mount_new drop_mount
  drop_mount-mount_new merged fresh free gone h = rw (mount_new-ok merged h) (
      rw gone (
        ap₂ (λ ds ms. record { dirs = ds; mounted = ms }) (retain-added dir o.dirs fresh)
          (retain-added dir o.mounted free)))

-- An error leaves nothing mounted.
mounted_with-err :
    (system : System) (dir : Text) (o : Overlays) (out : Option Bool) (e : Error)
    → (mounted_with system dir o out).0 ≡ err e
    → (mounted_with system dir o out).1.mounted ≡ o.mounted
mounted_with-err system dir o none e h = refl
mounted_with-err system dir o (some false) e h = refl
mounted_with-err system dir o (some true) e h = cc

mount_with-err :
    (system : System) (dir : Text) (o : Overlays) (options : Result Error Text) (e : Error)
    → (mount_with system dir o options).0 ≡ err e
    → (mount_with system dir o options).1.mounted ≡ o.mounted
mount_with-err system dir o (err x) e h = refl
mount_with-err system dir o (ok options) e h =
    mounted_with-err system dir o (system.fuse_overlayfs options (merged_of dir)) e h

pub mount_new-err :
    (system : System) (s : Store) (dir : Text) (layers : List Text) (points : List MountPoint)
    (o : Overlays) (e : Error)
    → (mount_new system s dir layers points none o).0 ≡ err e
    → (mount_new system s dir layers points none o).1.mounted ≡ o.mounted
unfolding mount_new
mount_new-err system s dir layers points o e h = elim (Bool-cases (is_empty layers)) [
  | inl bare ↦ rw bare refl
  | inr full ↦ elim (Bool-cases (not (system.can_make (merged_of dir)))) [
    | inl refused ↦ rw (full, refused) refl
    | inr made ↦
        rw (full, made)
          (mount_with-err system dir (record o { dirs = dir ∷ o.dirs })
            (mount_options system s dir layers points none) e (rw (full, made) at h))
  ]
]
