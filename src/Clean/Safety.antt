-- ===== src/Clean/Safety.antt =====
-- `gc_images` deletes nothing that an image of the store needs, and leaves nothing that none needs.
use climate.Common.{
  Text, text_in, text_eq, text_eq_iff, any, retain, In, Bool-cases, Result-cases, Option-cases, inl,
  inr, some, List, [], ◌∷◌, Bool, true, Result, ok, err, ◌>>=◌, >>=-eq-ok, context, ◌≡◌, refl, ap,
  ap₂, sym, ◌∙◌, arith,
}
use climate.Common.Error.{Error, bad_manifest, missing_blob}
use climate.Store.{
  Manifest, Formats, Store, Path2, path_eq, find_ref, find_blob, digest_path, read_blob, read_ref,
  has_layer, marker_name, read_manifest, image_config,
}
use climate.Store.Kept.{path_eq_sound}
use climate.Store.Names.{digest_path_sound, digest_path-Lacks, is_clean-head}
use climate.Clean.{
  LiveSets, digest_of, manifest_of, live_set, blob_is_live, layer_is_live, sweep, gc_images,
}
use climate.Clean.LiveSet.{trim-Lacks, Covers, live_refs-Covers}

find_ref-In :
    (name digest : Text) (refs : List (Text × Text))
    → find_ref name refs ≡ some digest
    → In (name, digest) refs
unfolding find_ref
find_ref-In name digest [] h = cc
find_ref-In name digest ((n, d) ∷ rest) h = elim (Bool-cases (text_eq n name)) [
  | inl same ↦ inl (ap₂ (λ u v. (u, v)) (sym ((text_eq_iff n name).0 same)) (ground arith))
  | inr other ↦ inr (find_ref-In name digest rest (rw other at h))
]

-- Deleting other files leaves what is read at a path.
find_blob-retain :
    (live : LiveSets) (path : Path2) (blobs : List (Path2 × Text))
    → text_in live.blobs (digest_of path) ≡ true
    → find_blob path (retain (blob_is_live live) blobs) ≡ find_blob path blobs
unfolding find_blob
find_blob-retain live path [] h = refl
find_blob-retain live path ((p, bytes) ∷ rest) h = elim (Bool-cases (path_eq p path)) [
  | inl same ↦
      let kept : text_in live.blobs (digest_of p) ≡ true =
        ap (λ q. text_in live.blobs (digest_of q)) (path_eq_sound p path same) ∙ h in
      rw (kept, same)
  | inr other ↦ ground (arith, find_blob-retain live path rest h)
]

any_layer-retain :
    (live : LiveSets) (path : Path2) (layers : List Path2)
    → layer_is_live live path ≡ true
    → any (λ p. path_eq p path) (retain (layer_is_live live) layers)
      ≡ any (λ p. path_eq p path) layers
any_layer-retain live path [] h = refl
any_layer-retain live path (p ∷ rest) h = elim (Bool-cases (path_eq p path)) [
  | inl same ↦
      let kept : layer_is_live live p ≡ true =
        ap (layer_is_live live) (path_eq_sound p path same) ∙ h in
      rw (kept, same)
  | inr other ↦ ground (arith, any_layer-retain live path rest h)
]

digest_of-path :
    (digest : Text) (path : Path2) → digest_path digest ≡ ok path → digest_of path ≡ digest
digest_of-path digest (algo, hex) h = (digest_path_sound digest algo hex h).0

abbrev found : Bool → Result Error Bool
found b = ok b

module _ (live : LiveSets) (s : Store) (digest : Text) where
  read_path :
      (r : Result Error Path2)
      → ((path : Path2)
          → r ≡ ok path
          → find_blob path (sweep live s).blobs ≡ find_blob path s.blobs)
      → (r >>= λ path. context (find_blob path (sweep live s).blobs) (missing_blob digest))
        ≡ (r >>= λ path. context (find_blob path s.blobs) (missing_blob digest))
  read_path (ok path) h = ap (λ o. context o (missing_blob digest)) (h path refl)
  read_path (err e) h = refl

  read_blob-sweep :
      text_in live.blobs digest ≡ true → read_blob (sweep live s) digest ≡ read_blob s digest
  unfolding read_blob sweep
  read_blob-sweep h = read_path (digest_path digest) λ path e.
      find_blob-retain live path s.blobs
        (ap (text_in live.blobs) (digest_of-path digest path e) ∙ h)

  has_path :
      (r : Result Error Path2)
      → ((path : Path2)
          → r ≡ ok path
          → any (λ p. path_eq p path) (sweep live s).layers ≡ any (λ p. path_eq p path) s.layers)
      → (r >>= λ path. found (any (λ p. path_eq p path) (sweep live s).layers))
        ≡ (r >>= λ path. found (any (λ p. path_eq p path) s.layers))
  has_path (ok path) h = ap found (h path refl)
  has_path (err e) h = refl

  has_layer-sweep :
      text_in live.layers digest ≡ true → has_layer (sweep live s) digest ≡ has_layer s digest
  unfolding has_layer sweep
  has_layer-sweep h =
      has_path (digest_path digest) λ path e. any_layer-retain live path s.layers (alive path e)
    where
      alive : (path : Path2) → digest_path digest ≡ ok path → layer_is_live live path ≡ true
      alive (algo, hex) e =
          let (same, clean_algo, clean_hex) = digest_path_sound digest algo hex e in
          ground (arith, is_clean-head hex clean_hex, ap (text_in live.layers) same ∙ h)

module _ {C : Type 0} (formats : Formats C) (s : Store) (key : Text) (m : Manifest) where
  -- The ref behind an image that can be read, and its manifest.
  manifest-ref :
      read_manifest formats s key ≡ ok (some m)
      → (digest bytes : Text) × (read_ref s key ≡ some digest)
        × (read_blob s digest ≡ ok bytes)
        × (formats.parse_manifest bytes ≡ some m)
  unfolding read_manifest
  manifest-ref h = elim (Option-cases (read_ref s key)) [
    | inl missing ↦ ground arith
    | inr (digest, e) ↦
        let (bytes, read, parsed) =
          >>=-eq-ok (read_blob s digest)
            (λ bytes.
              context (formats.parse_manifest bytes) (bad_manifest key) >>= λ m. ok (some m))
            (rw e at h) in
        (digest, bytes, e, read, ground arith)
  ]

  read_blob-path :
      (digest bytes : Text)
      → read_blob s digest ≡ ok bytes
      → (path : Path2) × (digest_path digest ≡ ok path)
  unfolding read_blob
  read_blob-path digest bytes h =
      let (path, e, rest) =
        >>=-eq-ok (digest_path digest)
          (λ path. context (find_blob path s.blobs) (missing_blob digest)) h in
      (path, e)

  -- An image that can be read is in use.
  image-Covers :
      (live : LiveSets)
      → live_set formats s ≡ ok live
      → read_manifest formats s key ≡ ok (some m)
      → (digest bytes : Text) × (read_ref s key ≡ some digest)
        × (read_blob s digest ≡ ok bytes)
        × (formats.parse_manifest bytes ≡ some m)
        × Covers live digest m
  unfolding live_set read_ref manifest_of
  image-Covers live h readable =
      let (digest, bytes, ref, read, parsed) = manifest-ref readable in
      let (path, e) = read_blob-path digest bytes read in
      let (no_space, full) = digest_path-Lacks digest path e in
      let trimmed = trim-Lacks digest no_space in
      (
        digest,
        bytes,
        ref,
        read,
        parsed,
        rw trimmed at (
            live_refs-Covers formats s s.refs (record { blobs = []; layers = [] }) live
              (marker_name key) digest m h (find_ref-In (marker_name key) digest s.refs ref)
              (rw trimmed full) (rw (trimmed, read, parsed) refl)),
      )

  read_manifest-sweep :
      (live : LiveSets) (digest bytes : Text)
      → read_ref s key ≡ some digest
      → read_blob s digest ≡ ok bytes
      → formats.parse_manifest bytes ≡ some m
      → text_in live.blobs digest ≡ true
      → read_manifest formats (sweep live s) key ≡ ok (some m)
  unfolding read_manifest read_ref
  read_manifest-sweep live digest bytes ref read parsed h =
      let same_ref : find_ref (marker_name key) (sweep live s).refs ≡ some digest =
        refs_stay live ref in
      rw (same_ref, read_blob-sweep live s digest h, read, parsed)
    where
      refs_stay :
          (live : LiveSets)
          → find_ref (marker_name key) s.refs ≡ some digest
          → find_ref (marker_name key) (sweep live s).refs ≡ some digest
      refs_stay live e = unfold sweep in e

  image_config-sweep :
      (live : LiveSets)
      → text_in live.blobs m.config ≡ true
      → image_config formats (sweep live s) key m ≡ image_config formats s key m
  unfolding image_config
  image_config-sweep live h = rw (read_blob-sweep live s m.config h)

  -- The pass over the store keeps every image that can be read: its manifest and its settings are
  -- read as before, whether or not it can be told what is in use.
  pub gc_images-keeps :
      read_manifest formats s key ≡ ok (some m)
      → (read_manifest formats (gc_images formats s) key ≡ ok (some m))
        × (image_config formats (gc_images formats s) key m ≡ image_config formats s key m)
  unfolding gc_images
  gc_images-keeps readable = elim (Result-cases (live_set formats s)) [
    | inr (e, failed) ↦ rw failed (readable, refl)
    | inl (live, found) ↦
        let (digest, bytes, ref, read, parsed, covers) = image-Covers live found readable in
        rw found (
          read_manifest-sweep live digest bytes ref read parsed covers.manifest,
          image_config-sweep live covers.config,
        )
  ]

  -- Each layer of an image that can be read is there after the pass exactly if it was there before.
  pub gc_images-keeps_layers :
      (l : Text)
      → read_manifest formats s key ≡ ok (some m)
      → In l m.layers
      → has_layer (gc_images formats s) l ≡ has_layer s l
  unfolding gc_images
  gc_images-keeps_layers l readable i = elim (Result-cases (live_set formats s)) [
    | inr (e, failed) ↦ rw failed
    | inl (live, found) ↦
        let (digest, bytes, ref, read, parsed, covers) = image-Covers live found readable in
        rw found (has_layer-sweep live s l (covers.layers l i))
  ]
