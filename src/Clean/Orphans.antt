-- ===== src/Clean/Orphans.antt =====
-- `drop_orphan_refs`, and the image part of `clean` as a whole.
use climate.Common.{
  Text, text_in, text_in-In, text_eq, text_eq_iff, retain, In, In-append_left, In-append_right,
  Bool-cases, inl, inr, some, List, [], ◌∷◌, ◌++◌, true, ok, ◌≡◌, refl, ap, ◌∙◌, arith,
}
use climate.Store.{
  Manifest, Formats, Store, AppImage, find_ref, marker_name, read_ref, read_blob, image_key,
  read_manifest, image_config,
}
use climate.Clean.{key_name, whole_name, live_names, ref_is_live, drop_orphan_refs, clean_images}
use climate.Clean.Safety.{gc_images-keeps}

find_ref-retain :
    (live : List Text) (name : Text) (refs : List (Text × Text))
    → text_in live name ≡ true
    → find_ref name (retain (ref_is_live live) refs) ≡ find_ref name refs
unfolding find_ref
find_ref-retain live name [] h = refl
find_ref-retain live name ((n, d) ∷ rest) h = elim (Bool-cases (text_eq n name)) [
  | inl same ↦
      let kept : text_in live n ≡ true = ap (text_in live) ((text_eq_iff n name).0 same) ∙ h in
      rw (kept, same)
  | inr other ↦ ground (arith, find_ref-retain live name rest h)
]

module _ {C : Type 0} (formats : Formats C) (apps : List AppImage) (app : AppImage)
    (s : Store) where
  -- The names that an app keeps alive.
  abbrev app_names : List Text
  app_names = key_name (image_key formats app) ++ whole_name (formats.parse_reference app.reference)

  live_names-In :
      (others : List AppImage) (name : Text)
      → In app others
      → In name app_names
      → In name (live_names formats others)
  unfolding live_names
  live_names-In [] name i j = elim i [ ]
  live_names-In (other ∷ others) name (inl e) j =
      In-append_left name
        (key_name (image_key formats other) ++ whole_name (formats.parse_reference other.reference))
        (live_names formats others) (rw e at j)
  live_names-In (other ∷ others) name (inr i) j =
      In-append_right name
        (key_name (image_key formats other) ++ whole_name (formats.parse_reference other.reference))
        (live_names formats others) (live_names-In others name i j)

  read_ref-drop :
      (key : Text)
      → In app apps
      → In (marker_name key) app_names
      → read_ref (drop_orphan_refs formats apps s) key ≡ read_ref s key
  unfolding read_ref drop_orphan_refs
  read_ref-drop key i j = find_ref-retain (live_names formats apps) (marker_name key) s.refs (
      text_in-In (live_names formats apps) (marker_name key)
        (live_names-In apps (marker_name key) i j))

  -- The image of an app that is still there, and the image that it is built on, stay recorded.
  pub drop_orphan_refs-keeps :
      (key whole : Text)
      → In app apps
      → image_key formats app ≡ ok key
      → formats.parse_reference app.reference ≡ some whole
      → (read_ref (drop_orphan_refs formats apps s) key ≡ read_ref s key)
        × (read_ref (drop_orphan_refs formats apps s) whole ≡ read_ref s whole)
  drop_orphan_refs-keeps key whole i e base = (
    read_ref-drop key i (rw (e, base) (inl refl)),
    read_ref-drop whole i (rw (e, base) (inr (inl refl))),
  )

  read_manifest-drop :
      (key : Text)
      → read_ref (drop_orphan_refs formats apps s) key ≡ read_ref s key
      → read_manifest formats (drop_orphan_refs formats apps s) key ≡ read_manifest formats s key
  unfolding read_manifest read_blob drop_orphan_refs
  read_manifest-drop key e = rw e

  -- Cleaning leaves the image of every app that is still there: what a run reads of it, its manifest
  -- and its settings, is read as before.
  pub clean_images-keeps :
      (key : Text) (m : Manifest)
      → In app apps
      → image_key formats app ≡ ok key
      → read_manifest formats s key ≡ ok (some m)
      → (read_manifest formats (clean_images formats apps s) key ≡ ok (some m))
        × (image_config formats (clean_images formats apps s) key m ≡ image_config formats s key m)
  unfolding clean_images
  clean_images-keeps key m i e readable =
      let stays =
        read_ref-drop key i
          (rw e (In-append_left (marker_name key) (marker_name key ∷ []) _ (inl refl))) in
      let (manifest, config) =
        gc_images-keeps formats (drop_orphan_refs formats apps s) key m
          (read_manifest-drop key stays ∙ readable) in
      (manifest, config ∙ image_config-drop key)
    where
      image_config-drop :
          (key : Text)
          → image_config formats (drop_orphan_refs formats apps s) key m
            ≡ image_config formats s key m
      image_config-drop key = unfold image_config read_blob drop_orphan_refs in refl
