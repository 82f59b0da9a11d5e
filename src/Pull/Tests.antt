-- ===== src/Pull/Tests.antt =====
-- A run of an app whose image is stored, where neither a download nor a build can succeed.
use climate.Common.{
  Text, codes, text_eq, retain, Option, none, some, [], ◌∷◌, true, false, Result, ok, err, guard,
  ◌≡◌, refl,
}
use climate.Common.Error.{Error, missing_blob, failed_to_update}
use climate.Clean.{gc_images}
use climate.Pull.Offline.{IsOffline, is_due, pull-offline}
use climate.Store.{
  AppImage, find_ref, find_blob, is_clean, digest_path, marker_name, read_blob, read_ref, has_ref,
  image_config,
}
use climate.Clean.Tests.{manifest, formats, app, store, readable, key}
use climate.Pull.{Makers, resolve, no_names, pull}
use climate.Pull.Stored.{resolve-stored}

abbrev pub offline : Makers
offline = record {
  fetch_image = λ reference s. (err (missing_blob reference), s);
  build = λ app script s. (err (missing_blob script), s);
}

recorded : has_ref store (codes "a/tool:1") ≡ true
unfolding has_ref read_ref find_ref marker_name text_eq
recorded = refl

settings : image_config formats store (codes "a/tool:1") manifest ≡ ok (codes "settings")
unfolding image_config read_blob find_blob digest_path is_clean text_eq
settings = refl

resolve-stored_example :
    resolve formats offline app store
    ≡ (ok (record { layers = manifest.layers; config = codes "settings" }), store)
resolve-stored_example =
    resolve-stored formats offline store app (codes "a/tool:1") manifest (codes "settings") key
      recorded readable settings

offline-IsOffline : IsOffline offline
offline-IsOffline = record {
  fetches = λ whole s. (missing_blob whole, refl);
  builds = λ app script s. (missing_blob script, refl);
}

abbrev load : Text → Result Error AppImage
load name = ok app

abbrev load_or_warn : Text → Option AppImage
load_or_warn name = some app

pull-offline_example :
    pull formats offline load load_or_warn (codes "tool" ∷ []) true false none store ≡ (
      guard
          (no_names (retain (is_due formats false store load_or_warn) (codes "tool" ∷ [])))
          (failed_to_update (retain (is_due formats false store load_or_warn) (codes "tool" ∷ []))),
      gc_images formats store,
    )
pull-offline_example =
    pull-offline formats offline offline-IsOffline store load load_or_warn false (codes "tool" ∷ [])
      none
