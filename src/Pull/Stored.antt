-- ===== src/Pull/Stored.antt =====
-- An image that is in the store is used as it is.
use climate.Common.{Text, Bool, Option, none, some, true, false, ok, context, ◌≡◌, refl}
use climate.Common.Error.{Error, invalid_reference}
use climate.Store.{
  Manifest, Formats, Store, AppImage, image_key, has_ref, read_manifest, image_config,
}
use climate.Pull.{Makers, fetch, fetch_if, ensure, ensure_with, resolve}

module _ {C : Type 0} (formats : Formats C) (makers : Makers) (s : Store) (app : AppImage)
    (key : Text) where
  whole-key : (o : Option Text) (e : Error) → context o e ≡ ok key → o ≡ some key
  whole-key none e h = cc
  whole-key (some whole) e h = cc

  fetch_if-stored :
      (pulls : Bool)
      → context (formats.parse_reference app.reference) (invalid_reference app.reference) ≡ ok key
      → has_ref s key ≡ true
      → fetch_if formats makers pulls app.reference false s ≡ (ok tt, s)
  unfolding fetch
  fetch_if-stored true h stored = rw (h, stored) refl
  fetch_if-stored false h stored = refl

  ensure_with-stored :
      (install : Option Text)
      → app.install ≡ install
      → image_key formats app ≡ ok key
      → has_ref s key ≡ true
      → ensure_with formats makers app install false false s ≡ (ok tt, s)
  ensure_with-stored (some script) e named stored = rw (named, stored) refl
  ensure_with-stored none e named stored =
      fetch_if-stored app.pull (unfold image_key in rw e at named) stored

  ensure-stored :
      image_key formats app ≡ ok key
      → has_ref s key ≡ true
      → ensure formats makers app false false s ≡ (ok tt, s)
  unfolding ensure
  ensure-stored named stored = ensure_with-stored app.install refl named stored

  -- A run of an app whose image is recorded leaves the store as it is, whatever a download or a build
  -- would do: it gets the layers of the manifest that is recorded, and the settings that go with it.
  pub resolve-stored :
      (m : Manifest) (config : C)
      → image_key formats app ≡ ok key
      → has_ref s key ≡ true
      → read_manifest formats s key ≡ ok (some m)
      → image_config formats s key m ≡ ok config
      → resolve formats makers app s ≡ (ok (record { layers = m.layers; config = config }), s)
  unfolding resolve
  resolve-stored m config named stored readable set =
      rw (named, ensure-stored named stored, readable, set) refl
