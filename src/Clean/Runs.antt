-- ===== src/Clean/Runs.antt =====
-- `prune_runtime`, `is_mounted` and `alive` of src/clean.rs: what is left of runs whose process is gone.
-- What the system, the container runtime and fusermount3 answer is the parameter `System`.
pub mod Spared
pub mod Pruned
pub mod Tests
use climate.Common.{
  Text, codes, text_eq, split, lines, any, retain, not, ◌&&◌, ◌||◌, if◌then◌else◌, Option, none,
  some, List, [], ◌∷◌, Bool, true, false, zero, suc, Result, ok, err,
}
use climate.Common.Number.{ℤ, pos, negsuc}
use climate.Common.Error.{Error, not_listed, not_removed, fuse_not_run}
use climate.Common.Action.{Action, pure, asks, modify, change, each, ◌>>=◌, ◌>>◌}
use climate.Clean.{pid_of}
use climate.Spec.Paths.{join_path}

-- The entries of the three directories, and what /proc/self/mounts reads.
pub record Traces : Type 0 where
  pub containers : List Text
  pub bundles : List Text
  pub overlays : List Text
  pub mounts : Option Text

pub record System : Type 0 where
  pub runtime_dir : Text
  pub can_list : Text → Bool
  -- whether the kernel answers that there is no such process
  pub is_gone : ℤ → Bool
  pub loads_container : Text → Bool
  pub deletes_container : Text → Bool
  pub removes_dir : Text → Bool
  -- fusermount3, if it can be run: whether it reports success, and the mounts behind it
  pub fusermount : Text → Option Text → Option Bool × Option Text

abbrev is_second : Text → List Text → Bool
is_second path [] = false
is_second path (field ∷ []) = false
is_second path (field ∷ mount_point ∷ fields) = text_eq mount_point path

unfoldable pub is_mounted : Option Text → Text → Bool
is_mounted none path = false
is_mounted (some mounts) path = any (λ line. is_second path (split b' ' line)) (lines mounts)

abbrev pub without : Text → List Text → List Text
without id ids = retain (λ n. not (text_eq n id)) ids

module _ (sys : System) where
  -- A pid of 0 is no pid.
  unfoldable pub alive : ℤ → Bool
  alive (pos zero) = false
  alive (pos (suc n)) = not (sys.is_gone (pos (suc n)))
  alive (negsuc n) = not (sys.is_gone (negsuc n))

  abbrev dead : Option ℤ → Bool
  dead none = false
  dead (some pid) = not (alive pid)

  -- Whether the entry is of a run whose process is gone.
  unfoldable pub is_over : Text → Text → Bool
  is_over prefix id = dead (pid_of id prefix)

  -- The removal behind a failed deletion, of which no error is reported.
  unfoldable pub deletes : Text → Bool
  deletes id =
      if sys.loads_container id && sys.deletes_container id then true else sys.removes_dir id

  unfoldable pub delete_container : Text → Traces → Traces
  delete_container id s =
      if deletes id then record s { containers = without id s.containers } else s

  unfoldable pub prune_container : Text → Action Traces (Unit {0})
  prune_container id =
      if is_over (codes "climate-") id then modify (delete_container id) else pure tt

  unfoldable pub remove_bundle : Text → Traces → Result Error Traces
  remove_bundle id s =
      if sys.removes_dir id
      then ok (record s { bundles = without id s.bundles })
      else err (not_removed id)

  unfoldable pub prune_bundle : Text → Action Traces (Unit {0})
  prune_bundle id = if is_over (codes "climate-") id then change (remove_bundle id) else pure tt

  abbrev pub merged : Text → Text
  merged id =
      join_path (join_path (join_path sys.runtime_dir (codes "overlays")) id) (codes "merged")

  -- Whether the directory is no mount point any more, and the mounts then.
  abbrev pub tried : Text → Option Bool × Option Text → Traces → Result Error Bool × Traces
  tried path (none, mounts) s = (err fuse_not_run, record s { mounts = mounts })
  tried path (some success, mounts) s =
      (ok (success || not (is_mounted mounts path)), record s { mounts = mounts })

  unfoldable pub unmount : Text → Action Traces Bool
  unmount path s =
      if is_mounted s.mounts path then tried path (sys.fusermount path s.mounts) s else (ok true, s)

  unfoldable pub remove_overlay : Text → Traces → Result Error Traces
  remove_overlay id s =
      if sys.removes_dir id
      then ok (record s { overlays = without id s.overlays })
      else err (not_removed id)

  abbrev pub remove_if : Text → Bool → Action Traces (Unit {0})
  remove_if id free = if free then change (remove_overlay id) else pure tt

  unfoldable pub prune_overlay : Text → Action Traces (Unit {0})
  prune_overlay id = if is_over [] id then (unmount (merged id) >>= remove_if id) else pure tt

  -- A loop over the entries that a directory has when it is read.
  unfoldable pub prune_dir :
      Text → (Traces → List Text) → (Text → Action Traces (Unit {0})) → Action Traces (Unit {0})
  prune_dir dir ids prune = do
    found ← asks (λ s. if sys.can_list dir then ok (ids s) else err (not_listed dir))
    each prune found

  unfoldable pub prune_runtime : Action Traces (Unit {0})
  prune_runtime = do
    prune_dir (codes "containers") (λ s. s.containers) prune_container
    prune_dir (codes "bundles") (λ s. s.bundles) prune_bundle
    prune_dir (codes "overlays") (λ s. s.overlays) prune_overlay
