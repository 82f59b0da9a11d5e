-- ===== src/Fetch.antt =====
-- The download of an image: `fetch_image`, `fetch_layer` and `download_blob` of src/pull.rs, and
-- `extract_layer`, `commit_blob` and `temp_path` of src/store.rs. The registry, the unpacking of an
-- archive and the clock are parameters. Downloads that run at once are taken one after another, in
-- the order in which they complete; the progress bars are left out.
pub mod Rules
pub mod Layer
pub mod Blobs
pub mod Complete
pub mod Tests
use climate.Common.{
  contains_text, ends_with_text, Text, codes, text_eq, starts_with, ends_with, is_empty, any,
  retain, not, ◌&&◌, ◌||◌, if◌then◌else◌, map, Option, none, some, List, [], ◌∷◌, ◌++◌, Bool, true,
  false, ℕ, zero, suc, Result, ok, err, context,
}
use climate.Common.Error.{
  Error, unresolved_image, manifest_not_fetched, blob_not_pulled, layer_not_opened, bad_media_type,
  not_extracted, not_finalised, not_stored, no_decoder,
}
use climate.Store.{
  Writes, Manifest, Store, Path2, path_eq, digest_path, find_ref, has_blob, has_layer, write_blob,
  record_ref,
}
use climate.Store.Action.{Action, pure, asks, lift, modify, change, finally, ◌>>=◌, ◌>>◌}

-- What the program reads of `OciDescriptor` and of `OciImageManifest`.
pub record Descriptor : Type 0 where
  pub digest : Text
  pub media_type : Text

pub record ImageManifest : Type 0 where
  pub config : Descriptor
  pub layers : List Descriptor

abbrev pub digests_of : ImageManifest → Manifest
digests_of m = record { config = m.config.digest; layers = map (λ l. l.digest) m.layers }

-- A blob arrives whole and with the digest that was asked for, or the transfer breaks off: what had
-- arrived by then is in the file.
pub data Transfer : Type 0 where
  whole broken : Text → Transfer

pub data Compression : Type 0 where
  zstd gzip plain : Compression

pub record Remote : Type 0 where
  pub pull_image_manifest : Text → Option (ImageManifest × Text)
  pub pull_manifest_raw : Text → Text → Option Text
  pub pull_blob : Text → Descriptor → Transfer
  -- the order in which downloads complete
  pub completed : List Descriptor → List Descriptor
  -- `unique_id`, by the number of the call
  pub unique_id : ℕ → Text
  pub opens_zstd : Text → Bool
  pub unpacks : Compression → Text → Bool
  -- whether the directory of a layer is empty, so that a rename replaces it
  pub is_empty_dir : Path2 → Bool
  pub writes : Writes

-- The files at the top of the store.
unfoldable pub find_file : Text → List (Text × Text) → Option Text
find_file name [] = none
find_file name ((n, bytes) ∷ rest) = if text_eq n name then some bytes else find_file name rest

abbrev pub without_file : Text → Store → Store
without_file name s = record s { others = retain (λ f. not (text_eq f.0 name)) s.others }

abbrev pub write_file : Text → Text → Store → Store
write_file name bytes s = record s {
  others = (name, bytes) ∷ retain (λ f. not (text_eq f.0 name)) s.others;
}

abbrev pub without_layer : Path2 → Store → Store
without_layer path s = record s { layers = retain (λ p. not (path_eq p path)) s.layers }

abbrev pub with_layer : Path2 → Store → Store
with_layer path s = record s { layers = path ∷ retain (λ p. not (path_eq p path)) s.layers }

-- `str::contains` of a text.
abbrev pub staging_of : Path2 → Path2
staging_of (algo, hex) = (algo, codes ".extract-" ++ hex)

-- The layers that are not in the store.
abbrev pub keep_if : Bool → Descriptor → List Descriptor → List Descriptor
keep_if true layer rest = rest
keep_if false layer rest = layer ∷ rest

unfoldable pub missing_layers : List Descriptor → Action (List Descriptor)
missing_layers [] = pure []
missing_layers (layer ∷ layers) = do
  there ← asks (λ s. has_layer s layer.digest)
  rest ← missing_layers layers
  pure (keep_if there layer rest)

-- The renaming of the file to the blob's.
abbrev pub committed : Text → Text → Store → Path2 → Option Text → Result Error Store
committed temp digest s dest none = err (not_stored digest)
committed temp digest s dest (some bytes) = ok (record (without_file temp s) {
  blobs = (dest, bytes) ∷ retain (λ b. not (path_eq b.0 dest)) s.blobs;
})

abbrev pub commit_to : Text → Text → Store → Result Error Path2 → Result Error Store
commit_to temp digest s (err e) = err e
commit_to temp digest s (ok dest) = committed temp digest s dest (find_file temp s.others)

unfoldable pub commit_blob : Text → Text → Store → Result Error Store
commit_blob temp digest s = commit_to temp digest s (digest_path digest)

module _ (remote : Remote) where
  unfoldable pub temp_path : Text → ℕ → Text
  temp_path tag id = codes ".download-" ++ (tag ++ (b'-' ∷ remote.unique_id id))

  unfoldable pub reader_of : Text → Text → Result Error Compression
  reader_of media_type bytes =
      if contains_text media_type (codes "zstd")
      then (if remote.opens_zstd bytes then ok zstd else err no_decoder)
      else if contains_text media_type (codes "gzip")
      then ok gzip
      else if ends_with_text media_type (codes "tar")
      then ok plain
      else err (bad_media_type media_type)

  -- What has arrived is written to the file, whichever way the transfer ends.
  abbrev received : Text → Descriptor → Transfer → Action (Unit {0})
  received temp descriptor (whole bytes) = modify (write_file temp bytes)
  received temp descriptor (broken bytes) = do
    modify (write_file temp bytes)
    lift (err (blob_not_pulled descriptor.digest))

  unfoldable pub download_blob : Text → Descriptor → Text → Action (Unit {0})
  download_blob reference descriptor temp = do
    modify (write_file temp [])
    received temp descriptor (remote.pull_blob reference descriptor)

  -- The renaming of the staging directory to the layer's: a directory that holds files is not
  -- replaced.
  unfoldable pub finalise_layer : Text → Path2 → Store → Result Error Store
  finalise_layer digest dest s =
      if any (λ p. path_eq p dest) s.layers && not (remote.is_empty_dir dest)
      then err (not_finalised digest)
      else ok (with_layer dest (without_layer (staging_of dest) s))

  unfoldable pub extract_layer : Text → Text → Text → Action (Unit {0})
  extract_layer temp digest media_type = do
    dest ← lift (digest_path digest)
    modify (without_layer (staging_of dest))
    bytes ← asks (λ s. context (find_file temp s.others) (layer_not_opened digest))
    compression ← lift (reader_of media_type bytes)
    modify (with_layer (staging_of dest))
    lift (if remote.unpacks compression bytes then ok tt else err (not_extracted digest))
    change (finalise_layer digest dest)

  unfoldable pub fetch_layer : Text → Descriptor → ℕ → Action (Unit {0})
  fetch_layer reference layer id = do
    temp ← pure (temp_path (codes "layer") id)
    finally (download_blob reference layer temp >> extract_layer temp layer.digest layer.media_type)
        (without_file temp)

  unfoldable pub fetch_config : Text → Descriptor → Action (Unit {0})
  fetch_config reference config = do
    temp ← pure (temp_path (codes "config") 0)
    download_blob reference config temp
    change (commit_blob temp config.digest)

  unfoldable pub fetch_layers : Text → ℕ → List Descriptor → Action (Unit {0})
  fetch_layers reference id [] = pure tt
  fetch_layers reference id (layer ∷ layers) = do
    fetch_layer reference layer id
    fetch_layers reference (suc id) layers

  unfoldable pub fetch_image : Text → Action (Unit {0})
  fetch_image reference = do
    (manifest, digest) ←
        lift (context (remote.pull_image_manifest reference) (unresolved_image reference))
    raw ←
        lift (context (remote.pull_manifest_raw reference digest) (manifest_not_fetched reference))
    write_blob remote.writes digest raw
    there ← asks (λ s. has_blob s manifest.config.digest)
    if there then pure tt else fetch_config reference manifest.config
    pending ← missing_layers manifest.layers
    fetch_layers reference 1 (remote.completed pending)
    record_ref remote.writes reference digest
