-- ===== src/Pull.antt =====
-- `fetch`, `ensure` and `pull` of src/pull.rs, and `resolve` of src/store.rs: when an image is downloaded
-- or built, and what a run gets of it. The download (`fetch_image`) and the build (`build::build`) are
-- given as work on the store.
pub mod Stored
pub mod Offline
pub mod Tests
use climate.Common.{
  Text, text_in, is_empty, ◌&&◌, ◌||◌, not, if◌then◌else◌, Option, none, some, List, [], ◌∷◌, ◌++◌,
  Bool, true, false, Result, ok, err, guard, context,
}
use climate.Common.Error.{
  Error, invalid_reference, not_in_store, rebuild_without_update, no_app_named, nothing_to_pull,
  failed_to_update,
}
use climate.Store.{
  Manifest, Formats, Store, AppImage, image_key, has_ref, read_manifest, image_config,
}
use climate.Store.Action.{Action, pure, asks, attempt, lift, modify, ◌>>=◌, ◌>>◌}
use climate.Clean.{gc_images}

pub record Makers : Type 0 where
  pub fetch_image : Text → Action (Unit {0})
  pub build : AppImage → Text → Action (Unit {0})

pub record Image (C : Type 0) : Type 0 where
  pub layers : List Text
  pub config : C

-- The images that were updated, and the apps that failed.
abbrev pub Progress : Type 0
Progress = List Text × List Text

-- `parse::<Reference>().map_or_else(|_| reference, |r| r.whole())`
abbrev pub image_name : AppImage → Option Text → Text
image_name app none = app.reference
image_name app (some whole) = whole

abbrev pub has_script : Option Text → Bool
has_script none = false
has_script (some script) = true

abbrev pub noted : Text → Text → Bool → Progress → Result Error (Unit {0}) → Progress
noted name image contacted (updated, failed) (ok done) =
    (if contacted then image ∷ updated else updated, failed)
noted name image contacted (updated, failed) (err e) = (updated, failed ++ name ∷ [])

abbrev pub no_names : List Text → Bool
no_names [] = true
no_names (name ∷ names) = false

module _ {C : Type 0} (formats : Formats C) (makers : Makers) where
  unfoldable pub fetch : Text → Bool → Action (Unit {0})
  fetch reference update = do
    whole ← lift (context (formats.parse_reference reference) (invalid_reference reference))
    there ← asks (λ s. ok (not update && has_ref s whole))
    if there then pure tt else makers.fetch_image whole

  abbrev pub fetch_if : Bool → Text → Bool → Action (Unit {0})
  fetch_if true reference update = fetch reference update
  fetch_if false reference update = pure tt

  -- `!rebuild && store::has_ref(&store::image_key(cfg)?)?`
  abbrev pub is_built : AppImage → Bool → Action Bool
  is_built app true = pure false
  is_built app false = do key ← lift (image_key formats app); asks (λ s. ok (has_ref s key))

  abbrev pub fetch_and_build : AppImage → Text → Bool → Action (Unit {0})
  fetch_and_build app script update = do
    fetch_if app.pull app.reference update
    makers.build app script

  abbrev pub ensure_with : AppImage → Option Text → Bool → Bool → Action (Unit {0})
  ensure_with app none update rebuild = fetch_if app.pull app.reference update
  ensure_with app (some script) update rebuild = do
    built ← is_built app rebuild
    if built then pure tt else fetch_and_build app script update

  unfoldable pub ensure : AppImage → Bool → Bool → Action (Unit {0})
  ensure app update rebuild = ensure_with app app.install update rebuild

  abbrev present : AppImage → Option Manifest → Result Error Manifest
  present app none = err (not_in_store app.name app.reference)
  present app (some manifest) = ok manifest

  unfoldable pub resolve : AppImage → Action (Image C)
  resolve app = do
    key ← lift (image_key formats app)
    ensure app false false
    found ← asks (λ s. read_manifest formats s key)
    manifest ← lift (present app found)
    config ← asks (λ s. image_config formats s key manifest)
    pure (record { layers = manifest.layers; config = config })

  unfoldable pub update_image : Bool → Text → AppImage → Progress → Action Progress
  update_image rebuild name app progress = do
    image ← pure (image_name app (formats.parse_reference app.reference))
    done ← attempt (ensure app (not (text_in progress.0 image)) rebuild)
    pure (noted name image (app.pull && (not (has_script app.install) || rebuild)) progress done)

  abbrev pub update_keyed : Bool → Text → AppImage → Progress → Result Error Text → Action Progress
  update_keyed rebuild name app progress (err e) = pure progress
  update_keyed rebuild name app progress (ok key) = do
    there ← asks (λ s. ok (has_ref s key))
    if there then update_image rebuild name app progress else pure progress

  abbrev pub update_loaded : Bool → Text → Progress → Option AppImage → Action Progress
  update_loaded rebuild name progress none = pure progress
  update_loaded rebuild name progress (some app) =
      update_keyed rebuild name app progress (image_key formats app)

  module _ (load : Text → Result Error AppImage) (load_or_warn : Text → Option AppImage) where
    unfoldable pub update_apps : Bool → List Text → Progress → Action Progress
    update_apps rebuild [] progress = pure progress
    update_apps rebuild (name ∷ names) progress = do
      progress' ← update_loaded rebuild name progress (load_or_warn name)
      update_apps rebuild names progress'

    unfoldable pub pull_app : Option Text → Action (Unit {0})
    pull_app app = do
      name ← lift (context app no_app_named)
      cfg ← lift (load name)
      lift (guard (cfg.pull || has_script cfg.install) (nothing_to_pull name))
      ensure cfg true true

    -- The part in front of the clean-up: the apps that failed.
    abbrev pub pulled : List Text → Bool → Bool → Option Text → Action (List Text)
    pulled app_names true rebuild app = do
      progress ← update_apps rebuild app_names ([], [])
      pure progress.1
    pulled app_names false rebuild app = do pull_app app; pure []

    unfoldable pub pull : List Text → Bool → Bool → Option Text → Action (Unit {0})
    pull app_names update rebuild app = do
      lift (guard (not (rebuild && not update)) rebuild_without_update)
      failed ← pulled app_names update rebuild app
      modify (gc_images formats)
      lift (guard (no_names failed) (failed_to_update failed))
