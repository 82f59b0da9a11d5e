-- ===== src/Pull/Offline.antt =====
-- `pull -u` where nothing can be downloaded or built.
use climate.Common.{
  Text, retain, not, ◌&&◌, ◌||◌, Bool-cases, if◌then◌else◌, Option, none, some, List, [], ◌∷◌, ◌++◌,
  append_assoc, append-nil, inl, inr, Bool, true, false, Result, ok, err, guard, context, ◌≡◌, refl,
  ap, ◌∙◌,
}
use climate.Common.Error.{Error, invalid_reference, failed_to_update}
use climate.Store.{Formats, Store, AppImage, image_key, has_ref}
use climate.Clean.{gc_images}
use climate.Pull.{
  Makers, fetch, ensure_with, ensure, image_name, has_script, noted, no_names, update_image,
  update_keyed, update_loaded, update_apps, pull,
}

-- Every download and every build fails, and leaves the store as it is.
pub record IsOffline (makers : Makers) : Type 0 where
  pub fetches : (whole : Text) (s : Store) → (e : Error) × (makers.fetch_image whole s ≡ (err e, s))
  pub builds :
      (app : AppImage) (script : Text) (s : Store)
      → (e : Error) × (makers.build app script s ≡ (err e, s))

-- Whether an update of an app needs a download or a build.
unfoldable pub needs_work : Option Text → Bool → Bool → Bool
needs_work none pulls rebuild = pulls
needs_work (some script) pulls rebuild = rebuild

abbrev recorded : Store → Result Error Text → Bool
recorded s (err e) = false
recorded s (ok key) = has_ref s key

module _ {C : Type 0} (formats : Formats C) (rebuild : Bool) (s : Store) where
  abbrev due_app : Option AppImage → Bool
  due_app none = false
  due_app (some app) = recorded s (image_key formats app) && needs_work app.install app.pull rebuild

  -- The app can be loaded, its image is in the store, and its update needs work.
  unfoldable pub is_due : (Text → Option AppImage) → Text → Bool
  is_due load_or_warn name = due_app (load_or_warn name)

and_false : (b : Bool) → (b && false) ≡ false
and_false true = refl
and_false false = refl

abbrev Ended : Bool → Result Error (Unit {0}) → Type 0
Ended true r = (e : Error) × (r ≡ err e)
Ended false r = r ≡ ok tt

module _ {C : Type 0} (formats : Formats C) (makers : Makers) (off : IsOffline makers)
    (s : Store) where
  fetch-offline :
      (reference : Text) → (e : Error) × (fetch formats makers reference true s ≡ (err e, s))
  unfolding fetch
  fetch-offline reference =
      go (context (formats.parse_reference reference) (invalid_reference reference)) refl
    where
      go :
          (r : Result Error Text)
          → context (formats.parse_reference reference) (invalid_reference reference) ≡ r
          → (e : Error) × (fetch formats makers reference true s ≡ (err e, s))
      go (err e) h = (e, rw h refl)
      go (ok whole) h = let (e, failed) = off.fetches whole s in (e, rw (h, failed) refl)

  built_offline :
      (app : AppImage) (script : Text) (pulls : Bool)
      → (e : Error) × (ensure_with formats makers
            (record app { pull = pulls })
            (some script)
            true
            true
            s
          ≡ (err e, s))
  built_offline app script true =
      let (e, failed) = fetch-offline app.reference in (e, rw failed refl)
  built_offline app script false = off.builds (record app { pull = false }) script s

  ensured :
      (app : AppImage) (key : Text) (install : Option Text) (pulls rebuild : Bool)
      → image_key formats app ≡ ok key
      → has_ref s key ≡ true
      → app.install ≡ install
      → app.pull ≡ pulls
      → (r : Result Error (Unit {0})) × (ensure_with formats makers app install true rebuild s
          ≡ (r, s))
        × Ended (needs_work install pulls rebuild) r
  unfolding needs_work
  ensured app key none true rebuild named stored i p =
      let (e, failed) = fetch-offline app.reference in (err e, rw (p, failed) refl, (e, refl))
  ensured app key none false rebuild named stored i p = (ok tt, rw p refl, refl)
  ensured app key (some script) pulls true named stored i p =
      let (e, failed) = built_offline app script app.pull in (err e, failed, (e, refl))
  ensured app key (some script) pulls false named stored i p =
      (ok tt, rw (named, stored) refl, refl)

  noted_end :
      (name image : Text) (install : Option Text) (pulls rebuild : Bool) (failed : List Text)
      (r : Result Error (Unit {0}))
      → Ended (needs_work install pulls rebuild) r
      → noted name image (pulls && (not (has_script install) || rebuild)) ([], failed) r
        ≡ ([], if needs_work install pulls rebuild then failed ++ name ∷ [] else failed)
  unfolding needs_work
  noted_end name image none true rebuild failed r (e, h) = rw h refl
  noted_end name image none false rebuild failed r h = rw h refl
  noted_end name image (some script) true true failed r (e, h) = rw h refl
  noted_end name image (some script) false true failed r (e, h) = rw h refl
  noted_end name image (some script) true false failed r h = rw h refl
  noted_end name image (some script) false false failed r h = rw h refl

  update_image-offline :
      (rebuild : Bool) (name key : Text) (app : AppImage) (failed : List Text)
      → image_key formats app ≡ ok key
      → has_ref s key ≡ true
      → update_image formats makers rebuild name app ([], failed) s ≡ (
        ok ([], if needs_work app.install app.pull rebuild then failed ++ name ∷ [] else failed),
        s,
      )
  unfolding update_image ensure
  update_image-offline rebuild name key app failed named stored =
      let (r, done, ended) = ensured app key app.install app.pull rebuild named stored refl refl in
      rw done (
        ap (λ p. (ok p, s))
          (noted_end name (image_name app (formats.parse_reference app.reference)) app.install
            app.pull rebuild failed r ended))

  update_keyed-offline :
      (rebuild : Bool) (name : Text) (app : AppImage) (failed : List Text) (key : Result Error Text)
      → image_key formats app ≡ key
      → update_keyed formats makers rebuild name app ([], failed) key s ≡ (
        ok (
          [],
          if recorded s key && needs_work app.install app.pull rebuild
              then failed ++ name ∷ []
              else failed,
        ),
        s,
      )
  update_keyed-offline rebuild name app failed (err e) named = refl
  update_keyed-offline rebuild name app failed (ok key) named = elim (Bool-cases (has_ref s key)) [
    | inl stored ↦ rw stored (update_image-offline rebuild name key app failed named stored)
    | inr missing ↦ rw missing refl
  ]

  update_loaded-offline :
      (rebuild : Bool) (name : Text) (failed : List Text) (app : Option AppImage)
      → update_loaded formats makers rebuild name ([], failed) app s
        ≡ (ok ([], if due_app formats rebuild s app then failed ++ name ∷ [] else failed), s)
  update_loaded-offline rebuild name failed none = refl
  update_loaded-offline rebuild name failed (some app) =
      update_keyed-offline rebuild name app failed (image_key formats app) refl

  module _ (load : Text → Result Error AppImage) (load_or_warn : Text → Option AppImage)
      (rebuild : Bool) where
    abbrev due : List Text → List Text
    due names = retain (is_due formats rebuild s load_or_warn) names

    update_apps-offline :
        (names failed : List Text)
        → update_apps formats makers load load_or_warn rebuild names ([], failed) s
          ≡ (ok ([], failed ++ due names), s)
    unfolding update_apps is_due
    update_apps-offline [] failed = rw (append-nil failed) refl
    update_apps-offline (name ∷ names) failed =
        rw (update_loaded-offline rebuild name failed (load_or_warn name))
          (rest (due_app formats rebuild s (load_or_warn name)) (update_apps-offline names))
      where
        rest :
            (b : Bool)
            → ((failed : List Text)
                → update_apps formats makers load load_or_warn rebuild names ([], failed) s
                  ≡ (ok ([], failed ++ due names), s))
            → update_apps formats makers load load_or_warn rebuild names
                ([], if b then failed ++ name ∷ [] else failed)
                s
              ≡ (ok ([], failed ++ (if b then name ∷ due names else due names)), s)
        rest true h =
            h (failed ++ name ∷ [])
            ∙ ap (λ (l : List Text). (ok ([], l), s)) (append_assoc failed (name ∷ []) (due names))
        rest false h = h failed

    -- Where nothing can be downloaded or built, `pull -u` goes through every app all the same and sweeps
    -- up behind it. It names, in order, the apps whose image is in the store and whose update needs work:
    -- those with an install script if a rebuild is asked for, and those without one if they may be
    -- pulled. It goes well if there are none.
    pub pull-offline :
        (app_names : List Text) (app : Option Text)
        → pull formats makers load load_or_warn app_names true rebuild app s ≡ (
          guard (no_names (due app_names)) (failed_to_update (due app_names)),
          gc_images formats s,
        )
    unfolding pull
    pull-offline app_names app = rw (and_false rebuild, update_apps-offline app_names []) refl
