-- ===== src/Build.antt =====
-- src/build.rs: the image of an app with an install script. What the program takes from outside, the
-- running of the container among it, is the parameter `World`.
mod Script
unfoldable pub use Script.*
pub mod Steps
pub mod Built
pub mod Tests
use climate.Common.{
  Text, codes, ◌==◌, not, retain, if◌then◌else◌, any, Option, none, some, List, [], ◌∷◌, ◌++◌, Bool,
  true, false, ℕ, ◌&&◌, Result, ok, err, context,
}
use climate.Common.Error.{
  Error, invalid_reference, base_missing, script_failed, not_made, not_finalised, bad_manifest,
}
use climate.Config.{AppConfig, RunConfig, list, full}
use climate.Spec.Limits.{Float64}
use climate.Spec.Process.{ImageExecConfig}
use climate.Spec.Mounts.{Host, mountpoints}
use climate.Spec.Build.{Spec, Rootless}
use climate.Seccomp.{Capabilities, Target, Seacomb, profile}
use climate.Runtime.Overlay.{System, Overlays, mount_new, drop_mount, layer_dir}
use climate.Store.{
  Manifest, Formats, Store, Path2, AppImage, path_eq, digest_path, read_manifest, image_config,
  image_key, write_blob, record_ref,
}
use climate.Store.Action.{Action, pure, asks, lift, modify, change, ◌>>=◌, ◌>>◌}
use climate.Fetch.{staging_of, with_layer, without_layer}

-- The id without its dash.
unfoldable pub build_id : Text → Text
build_id id = retain (λ c. not (c == b'-')) id

unfoldable pub build_digest : Text → Text
build_digest id = codes "build:" ++ build_id id

abbrev pub add_layer : Manifest → Text → Manifest
add_layer m digest = record { config = m.config; layers = m.layers ++ digest ∷ [] }

abbrev pub work_of : Path2 → Path2
work_of (algo, hex) = staging_of (algo, hex ++ codes "-work")

abbrev pub base_of : AppImage → Option Manifest → Result Error Manifest
base_of app none = err (base_missing app.name app.reference)
base_of app (some base) = ok base

module _ {D F K P S : Type 0} (world : World D F K P S) where
  -- A directory beside the layers.
  unfoldable pub make_dir : Path2 → Action (Unit {0})
  make_dir path = do
    lift (
        if world.system.can_make (layer_dir world.system path)
        then ok tt
        else err (not_made (layer_dir world.system path)))
    modify (with_layer path)

  unfoldable pub rename_upper : Text → Path2 → Store → Result Error Store
  rename_upper digest layer s =
      if any (λ p. path_eq p layer) s.layers && not (world.is_empty_dir layer)
      then err (not_finalised digest)
      else ok (with_layer layer (without_layer (staging_of layer) s))

  -- What is done of the result of the script.
  abbrev pub unless_failed : Path2 → Result Error (Unit {0}) → Action (Unit {0})
  unless_failed layer (ok done) = pure tt
  unless_failed layer (err e) = do modify (without_layer (staging_of layer)); lift (err e)

  -- The script in a container whose writes go to the staging directory of the layer.
  unfoldable pub run_in_layer :
      AppConfig F K → Text → Overlays → Text → Manifest → Path2 → Action (Unit {0})
  run_in_layer cfg script o base_key base layer = do
    make_dir (staging_of layer)
    make_dir (work_of layer)
    result ← asks (λ s.
        ok
          (run_script world cfg script base_key s base
            (layer_dir world.system (staging_of layer), layer_dir world.system (work_of layer))
            o).0)
    modify (without_layer (work_of layer))
    unless_failed layer result

  -- The base's manifest with one more layer, under the layer's own digest.
  unfoldable pub record_image : AppConfig F K → Manifest → Text → Action (Unit {0})
  record_image cfg base digest = do
    bytes ← lift (context (world.serialise (add_layer base digest)) (bad_manifest digest))
    write_blob world.writes digest bytes
    key ← lift (image_key world.formats (app_image cfg))
    record_ref world.writes key digest

  unfoldable pub build : AppConfig F K → Text → Overlays → Action (Unit {0})
  build cfg script o = do
    base_key ← lift (
        context (world.formats.parse_reference cfg.image.reference)
          (invalid_reference cfg.image.reference))
    found ← asks (λ s. read_manifest world.formats s base_key)
    base ← lift (base_of (app_image cfg) found)
    digest ← pure (build_digest world.unique_id)
    layer ← lift (digest_path digest)
    run_in_layer cfg script o base_key base layer
    change (rename_upper digest layer)
    record_image cfg base digest
