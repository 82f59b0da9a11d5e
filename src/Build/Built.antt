-- ===== src/Build/Built.antt =====
-- What `build` leaves: the built image under the app's own name, or the images that there were.
use climate.Common.{
  Text, Option, some, none, true, false, ok, err, Result, context-eq-ok, ◌≡◌, refl, ap, ◌∙◌,
  Option-cases, Result-cases, inl, inr,
}
use climate.Common.Error.{invalid_reference, bad_manifest}
use climate.Config.{AppConfig}
use climate.Store.{
  put_ref, Manifest, Store, Path2, AppImage, find_blob, digest_path, has_layer, has_blob, read_blob,
  read_ref, exists, read_manifest, image_key,
}
use climate.Store.Action.{
  Promises, Ends, change, ◌>>◌, asks-Promises, change-Promises, bind-Promises,
}
use climate.Store.Kept.{Kept, Kept-refl, Kept-trans, has_layer-Kept, read_blob-Kept}
use climate.Fetch.Rules.{lift-then}
use climate.Fetch.Blobs.{
  write_blob-Promises, record_ref-Promises, stored_blob, stored_blob-Kept, IsWritten,
}
use climate.Fetch.Complete.{read_ref-put_ref}
use climate.Runtime.Overlay.{Overlays}
use climate.Build.{
  World, app_image, build_digest, add_layer, base_of, rename_upper, build, run_in_layer,
  record_image,
}
use climate.Build.Steps.{Unwritten, Unwritten-Kept, run_in_layer-Promises, rename_upper-Kept}

-- Bytes that are read where there are none.
no_blob :
    (s : Store) (digest b bytes : Text)
    → has_blob s digest ≡ ok false
    → read_blob s digest ≡ ok b
    → b ≡ bytes
unfolding has_blob read_blob
no_blob s digest b bytes absent h = elim (Result-cases (digest_path digest)) [
  | inr (e, bad) ↦ let failed : err e ≡ Result.ok b = rw bad at h in cc
  | inl (path, e) ↦ elim (Option-cases (find_blob path s.blobs)) [
    | inl missing ↦ cc
    | inr (bytes, there) ↦
        let held : Result.ok (exists (find_blob path s.blobs)) ≡ ok false = rw e at absent in cc
  ]
]

-- The store once the image of an app has been built on `base`.
pub record IsBuilt {D F K P S : Type 0} (world : World D F K P S) (s0 : Store) (cfg : AppConfig F K)
    (s : Store) : Type 0 where
  pub base : Manifest
  pub base_key : Text
  pub key : Text
  pub bytes : Text
  pub named : world.formats.parse_reference cfg.image.reference ≡ some base_key
  pub based : read_manifest world.formats s0 base_key ≡ ok (some base)
  pub keyed : image_key world.formats (app_image cfg) ≡ ok key
  pub serialised : world.serialise (add_layer base (build_digest world.unique_id)) ≡ some bytes
  pub recorded : read_ref s key ≡ some (build_digest world.unique_id)
  pub manifest : read_blob s (build_digest world.unique_id) ≡ ok bytes
  pub layer : has_layer s (build_digest world.unique_id) ≡ ok true
  pub blobs : (d b : Text) → read_blob s0 d ≡ ok b → read_blob s d ≡ ok b
  pub layers : (d : Text) → has_layer s0 d ≡ ok true → has_layer s d ≡ ok true

base_of-some :
    (app : AppImage) (found : Option Manifest) (base : Manifest)
    → base_of app found ≡ ok base
    → found ≡ some base
base_of-some app none base h = cc
base_of-some app (some m) base h = ap some cc

module _ {D F K P S : Type 0} (world : World D F K P S) (s0 : Store) where
  -- The new layer and the manifest in the store, before the app's image is recorded.
  record Written (base : Manifest) (bytes : Text) (s : Store) : Type 0 where
    kept : Kept s0 s
    held : read_blob s (build_digest world.unique_id) ≡ ok bytes
    layer : has_layer s (build_digest world.unique_id) ≡ ok true
    serialised : world.serialise (add_layer base (build_digest world.unique_id)) ≡ some bytes

  recorded_build :
      (cfg : AppConfig F K) (base : Manifest) (base_key key bytes : Text) (s : Store)
      → world.formats.parse_reference cfg.image.reference ≡ some base_key
      → read_manifest world.formats s0 base_key ≡ ok (some base)
      → image_key world.formats (app_image cfg) ≡ ok key
      → Written base bytes s
      → IsBuilt world s0 cfg (put_ref key (build_digest world.unique_id) s)
  unfolding read_blob has_layer
  recorded_build cfg base base_key key bytes s named based keyed w = record {
    base = base;
    base_key = base_key;
    key = key;
    bytes = bytes;
    named = named;
    based = based;
    keyed = keyed;
    serialised = w.serialised;
    recorded = read_ref-put_ref s key (build_digest world.unique_id);
    manifest = w.held;
    layer = w.layer;
    blobs = λ d b h. read_blob-Kept d b w.kept h;
    layers = λ d h. has_layer-Kept d w.kept h;
  }

  module _ (fresh : has_blob s0 (build_digest world.unique_id) ≡ ok false)
      (done_writing : IsWritten world.writes) where
    write_base :
        (base : Manifest) (bytes : Text) (s s' : Store)
        → (Unwritten s0) s
        → has_layer s (build_digest world.unique_id) ≡ ok true
        → world.serialise (add_layer base (build_digest world.unique_id)) ≡ some bytes
        → stored_blob s (build_digest world.unique_id) bytes ≡ ok s'
        → Written base bytes s'
    unfolding has_blob read_blob
    write_base base bytes s s' p layer serialised h =
        let digest = build_digest world.unique_id in
        let (kept, held) =
          stored_blob-Kept s s' digest bytes
            (λ b there. no_blob s0 digest b bytes fresh (rw p.1 at there)) h in
        record {
          kept = Kept-trans p.0 kept;
          held = held;
          layer = has_layer-Kept digest kept layer;
          serialised = serialised;
        }

    record_image-Promises :
        (cfg : AppConfig F K) (base : Manifest) (base_key : Text)
        → world.formats.parse_reference cfg.image.reference ≡ some base_key
        → read_manifest world.formats s0 base_key ≡ ok (some base)
        → Promises
            (λ s. (Unwritten s0) s × (has_layer s (build_digest world.unique_id) ≡ ok true))
            (record_image world cfg base (build_digest world.unique_id))
            (λ done s. IsBuilt world s0 cfg s)
            (Kept s0)
    unfolding record_image
    record_image-Promises cfg base base_key named based =
        let digest = build_digest world.unique_id in
        lift-then (λ s p. p.0.0) _ _
          (λ bytes made.
            let serialised =
              context-eq-ok (world.serialise (add_layer base digest)) (bad_manifest digest) made in
            bind-Promises (λ done s. Written base bytes s) _ _
              (write_blob-Promises world.writes done_writing digest bytes (
                change-Promises _ (λ s. stored_blob s digest bytes) (λ s p. p.0.0)
                  (λ s s' p h. write_base base bytes s s' p.0 p.1 serialised h)))
              (λ done.
                lift-then (λ s w. w.kept) _ _
                  (λ key keyed.
                    record_ref-Promises world.writes done_writing key digest
                      (λ s w. recorded_build cfg base base_key key bytes s named based keyed w))))

    finish-Promises :
        (cfg : AppConfig F K) (base : Manifest) (base_key : Text) (layer : Path2)
        → world.formats.parse_reference cfg.image.reference ≡ some base_key
        → read_manifest world.formats s0 base_key ≡ ok (some base)
        → digest_path (build_digest world.unique_id) ≡ ok layer
        → Promises
            (Unwritten s0)
            (change (rename_upper world (build_digest world.unique_id) layer)
              >> record_image world cfg base (build_digest world.unique_id))
            (λ done s. IsBuilt world s0 cfg s)
            (Kept s0)
    unfolding has_layer
    finish-Promises cfg base base_key layer named based path =
        let digest = build_digest world.unique_id in
        bind-Promises (λ done s. (Unwritten s0) s × (has_layer s digest ≡ ok true)) _ _
          (change-Promises _ (rename_upper world digest layer) (Unwritten-Kept world s0)
            (λ s s' p h.
              let (kept, same, there) = rename_upper-Kept world s0 digest layer s s' h in
              ((Kept-trans p.0 kept, same ∙ p.1), rw path (ap ok there))))
          (λ done. record_image-Promises cfg base base_key named based)

    build-Promises :
        (cfg : AppConfig F K) (script : Text) (o : Overlays)
        → Promises
            (λ s. s ≡ s0)
            (build world cfg script o)
            (λ done s. IsBuilt world s0 cfg s)
            (Kept s0)
    unfolding build
    build-Promises cfg script o =
        let unchanged : (s : Store) → s ≡ s0 → Kept s0 s = λ s p. rw p (Kept-refl s0) in
        lift-then unchanged _ _ (λ base_key parsed.
          let named =
            context-eq-ok (world.formats.parse_reference cfg.image.reference)
              (invalid_reference cfg.image.reference) parsed in
          bind-Promises (λ found s. (s ≡ s0) × (read_manifest world.formats s0 base_key ≡ ok found))
            _ _
            (asks-Promises _ (λ s. read_manifest world.formats s base_key) unchanged
              (λ s found p e. (p, rw p at e)))
            (λ found.
              lift-then (λ s p. unchanged s p.0) (base_of (app_image cfg) found) _
                (λ base known.
                  lift-then (λ s p. unchanged s p.0) _ _
                    (λ layer path. record {
                      ends = λ s p.
                          let based = p.1 ∙ ap ok (base_of-some (app_image cfg) found base known) in
                          let there : (Unwritten s0) s =
                            (unchanged s p.0, ap (λ (t : Store). t.blobs) p.0) in
                          (bind-Promises (λ done s. (Unwritten s0) s)
                              (run_in_layer world cfg script o base_key base layer) _
                              (run_in_layer-Promises world s0 cfg script o base_key base layer)
                              (λ done.
                                finish-Promises cfg base base_key layer named based path)).ends
                            s there;
                    }))))

-- A build that goes well leaves the app's image: its manifest is the base image's with one layer more,
-- under a name of its own, that layer is in the store, and what the store held is still there. One that
-- fails, in the script or anywhere else, leaves the refs, the blobs and the layers that there were. No
-- blob has the name of the new layer before, and no write of a manifest or a ref breaks off: that would
-- leave a torn file in the place of the one that was there.
pub build-Ends :
    {D F K P S : Type 0} (world : World D F K P S) (cfg : AppConfig F K) (script : Text)
    (o : Overlays) (s : Store)
    → has_blob s (build_digest world.unique_id) ≡ ok false
    → IsWritten world.writes
    → Ends (λ done s'. IsBuilt world s cfg s') (Kept s) (build world cfg script o s)
build-Ends world cfg script o s fresh written =
    (build-Promises world s fresh written cfg script o).ends s refl
