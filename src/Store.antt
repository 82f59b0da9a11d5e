-- ===== src/Store.antt =====
-- store.rs: the images on disk. A store is the directory `images` of the user's data directory:
-- the files under refs/, blobs/ and layers/ by their names, and the other files at its top. Reading
-- and writing a file that may be read and written does not fail here, beyond a missing file.
pub mod Names
pub mod Action
pub mod Kept
pub mod Trees
pub mod Tests
use climate.Common.{
  Text, codes, text_eq, split_once, is_alphanumeric, is_empty, replace, retain, all, any, ◌==◌,
  ◌&&◌, ◌||◌, not, if◌then◌else◌, Option, none, some, List, [], ◌∷◌, ◌++◌, map, Bool, true, false,
  ℕ, Result, ok, err, ◌>>=◌, context,
}
use climate.Common.Error.{
  ref_not_recorded, blob_not_stored, Error, malformed_digest, missing_blob, bad_manifest,
  invalid_reference, bad_image_config,
}

-- What the program reads of `OciImageManifest`.
pub record Manifest : Type 0 where
  pub config : Text
  pub layers : List Text

-- The packages that read a reference (`Reference::parse` and `whole`), a manifest and an image's
-- settings.
pub record Formats (C : Type 0) : Type 0 where
  pub parse_reference : Text → Option Text
  pub parse_manifest : Text → Option Manifest
  pub parse_config : Text → Option C

-- A path below blobs/ or layers/: the algorithm and the name.
abbrev pub Path2 : Type 0
Path2 = Text × Text

pub record Store : Type 0 where
  pub refs : List (Text × Text)
  pub blobs : List (Path2 × Text)
  pub layers : List Path2
  pub others : List (Text × Text)

abbrev pub path_eq : Path2 → Path2 → Bool
path_eq (a, x) (b, y) = text_eq a b && text_eq x y

-- The first file of a name, in a directory or by its path.
unfoldable pub find_ref : Text → List (Text × Text) → Option Text
find_ref name [] = none
find_ref name ((n, digest) ∷ rest) = if text_eq n name then some digest else find_ref name rest

unfoldable pub find_blob : Path2 → List (Path2 × Text) → Option Text
find_blob path [] = none
find_blob path ((p, bytes) ∷ rest) = if path_eq p path then some bytes else find_blob path rest

unfoldable pub is_clean : Text → Bool
is_clean s = not (is_empty s) && all is_alphanumeric s

abbrev checked_path : Text → Text × Text → Result Error Path2
checked_path digest (algo, hex) =
    if not (is_clean algo) || not (is_clean hex)
    then err (malformed_digest digest)
    else ok (algo, hex)

unfoldable pub digest_path : Text → Result Error Path2
digest_path digest = do
  fields ← context (split_once b':' digest) (malformed_digest digest)
  checked_path digest fields

unfoldable pub marker_name : Text → Text
marker_name reference = replace b'/' b'+' reference

-- What the store reads of an app's definition: its name, `image.reference`, whether there is an
-- install script, and `image.pull`.
pub record AppImage : Type 0 where
  pub name : Text
  pub reference : Text
  pub install : Option Text
  pub pull : Bool

abbrev pub exists : Option Text → Bool
exists none = false
exists (some bytes) = true

unfoldable pub has_blob : Store → Text → Result Error Bool
has_blob s digest = do path ← digest_path digest; ok (exists (find_blob path s.blobs))

unfoldable pub read_blob : Store → Text → Result Error Text
read_blob s digest = do
  path ← digest_path digest
  context (find_blob path s.blobs) (missing_blob digest)

unfoldable pub read_ref : Store → Text → Option Text
read_ref s reference = find_ref (marker_name reference) s.refs

unfoldable pub has_layer : Store → Text → Result Error Bool
has_layer s digest = do path ← digest_path digest; ok (any (λ p. path_eq p path) s.layers)

module _ {C : Type 0} (formats : Formats C) where
  abbrev key_of : AppImage → Option Text → Result Error Text
  key_of app (some script) = ok (codes "localhost/climate/" ++ app.name)
  key_of app none =
      context (formats.parse_reference app.reference) (invalid_reference app.reference)

  unfoldable pub image_key : AppImage → Result Error Text
  image_key app = key_of app app.install

  abbrev manifest_at : Store → Text → Option Text → Result Error (Option Manifest)
  manifest_at s key none = ok none
  manifest_at s key (some digest) = do
    bytes ← read_blob s digest
    manifest ← context (formats.parse_manifest bytes) (bad_manifest key)
    ok (some manifest)

  unfoldable pub read_manifest : Store → Text → Result Error (Option Manifest)
  read_manifest s key = manifest_at s key (read_ref s key)

  unfoldable pub image_config : Store → Text → Manifest → Result Error C
  image_config s key manifest = do
    bytes ← read_blob s manifest.config
    context (formats.parse_config bytes) (bad_image_config key)

-- Whether an image is recorded, the recording of one, and the storing of bytes: a file that is
-- there is replaced.
unfoldable pub has_ref : Store → Text → Bool
has_ref s reference = exists (read_ref s reference)

-- How an `fs::write` ends: all of it is in the file, the file could not be made or opened, or what stood
-- in it is gone and only a part is there.
pub data WriteEnd : Type 0 where
  all_written not_opened : WriteEnd
  torn : Text → WriteEnd

-- How the writing of a blob and of a ref ends.
pub record Writes : Type 0 where
  pub blob : Path2 → WriteEnd
  pub marker : Text → WriteEnd

abbrev pub put_ref : Text → Text → Store → Store
put_ref reference digest s = record s {
  refs =
      (marker_name reference, digest)
      ∷ retain (λ r. not (text_eq r.0 (marker_name reference))) s.refs;
}

abbrev pub put_blob : Path2 → Text → Store → Store
put_blob path bytes s = record s {
  blobs = (path, bytes) ∷ retain (λ b. not (path_eq b.0 path)) s.blobs;
}

abbrev pub write_file_with :
    WriteEnd → Error → (Text → Store → Store) → Text → Store → Result Error (Unit {0}) × Store
write_file_with all_written e put bytes s = (ok tt, put bytes s)
write_file_with not_opened e put bytes s = (err e, s)
write_file_with (torn part) e put bytes s = (err e, put part s)

unfoldable pub record_ref : Writes → Text → Text → Store → Result Error (Unit {0}) × Store
record_ref writes reference digest s =
    write_file_with (writes.marker (marker_name reference)) (ref_not_recorded reference)
      (put_ref reference) digest s

abbrev pub write_blob_at :
    Writes → Text → Text → Store → Result Error Path2 → Result Error (Unit {0}) × Store
write_blob_at writes digest bytes s (err e) = (err e, s)
write_blob_at writes digest bytes s (ok path) =
    write_file_with (writes.blob path) (blob_not_stored digest) (put_blob path) bytes s

unfoldable pub write_blob : Writes → Text → Text → Store → Result Error (Unit {0}) × Store
write_blob writes digest bytes s = write_blob_at writes digest bytes s (digest_path digest)
