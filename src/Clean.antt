-- ===== src/Clean.antt =====
-- clean.rs: `live_set`, `gc_images`, `drop_orphan_refs` and `pid_of`. Every file that is to be
-- removed can be; the order in which a directory is listed is the order of the store's lists.
pub mod LiveSet
pub mod Runs
pub mod Safety
pub mod Orphans
pub mod Tests
use climate.Common.{
  Text, text_in, codes, text_eq, split, starts_with, is_whitespace, trim_end, is_empty, any, retain,
  ◌==◌, ◌&&◌, ◌||◌, not, if◌then◌else◌, Option, none, some, List, [], ◌∷◌, ◌++◌, map, Bool, true,
  false, ℕ, drop, length, Result, ok, err, ◌>>=◌, context,
}
use climate.Common.Number.{ℤ, i32_max, parse_signed}
use climate.Common.Error.{Error, bad_manifest}
use climate.Store.{Manifest, Formats, Store, Path2, AppImage, read_blob, marker_name, image_key}

-- `str::trim` of text whose white space is ASCII.
unfoldable pub trim_start_on : (ℕ → Bool) → Text → Text
trim_start_on p [] = []
trim_start_on p (c ∷ s) = let rest = trim_start_on p s in if p c then rest else c ∷ s

unfoldable pub trim : Text → Text
unfolding trim_start_on
trim s = trim_end is_whitespace (trim_start_on is_whitespace s)

-- The digests of blobs and of layers.
pub record LiveSets : Type 0 where
  pub blobs : List Text
  pub layers : List Text

-- The path of a file below blobs/ or layers/, as a digest.
abbrev pub digest_of : Path2 → Text
digest_of (algo, name) = algo ++ (b':' ∷ name)

abbrev pub add_manifest : LiveSets → Text → Manifest → LiveSets
add_manifest live digest manifest = record {
  blobs = manifest.config ∷ digest ∷ live.blobs;
  layers = manifest.layers ++ live.layers;
}

abbrev pub blob_is_live : LiveSets → Path2 × Text → Bool
blob_is_live live (path, bytes) = text_in live.blobs (digest_of path)

abbrev pub layer_is_live : LiveSets → Path2 → Bool
layer_is_live live (algo, name) =
    not (starts_with name (codes ".extract-") || not (text_in live.layers (digest_of (algo, name))))

abbrev pub is_kept : Text × Text → Bool
is_kept (name, bytes) = not (starts_with name (codes ".download-"))

-- The deletions, once what is in use is known.
unfoldable pub sweep : LiveSets → Store → Store
sweep live s = record s {
  blobs = retain (blob_is_live live) s.blobs;
  layers = retain (layer_is_live live) s.layers;
  others = retain is_kept s.others;
}

abbrev sweep_if : Store → Result Error LiveSets → Store
sweep_if s (ok live) = sweep live s
sweep_if s (err e) = s

abbrev pub key_name : Result Error Text → List Text
key_name (ok key) = marker_name key ∷ []
key_name (err e) = []

abbrev pub whole_name : Option Text → List Text
whole_name (some whole) = marker_name whole ∷ []
whole_name none = []

abbrev pub ref_is_live : List Text → Text × Text → Bool
ref_is_live live (name, contents) = text_in live name

module _ {C : Type 0} (formats : Formats C) where
  -- `serde_json::from_slice(&store::read_blob(digest)?)?`
  unfoldable pub manifest_of : Store → Text → Result Error Manifest
  manifest_of s digest = do
    bytes ← read_blob s digest
    context (formats.parse_manifest bytes) (bad_manifest digest)

  -- The round for one ref; an empty one is skipped.
  unfoldable pub live_ref : Store → LiveSets → Text → Result Error LiveSets
  live_ref s live contents = if is_empty (trim contents) then ok live else do
    manifest ← manifest_of s (trim contents)
    ok (add_manifest live (trim contents) manifest)

  unfoldable pub live_refs : Store → List (Text × Text) → LiveSets → Result Error LiveSets
  live_refs s [] live = ok live
  live_refs s ((name, contents) ∷ rest) live = do
    live' ← live_ref s live contents
    live_refs s rest live'

  unfoldable pub live_set : Store → Result Error LiveSets
  live_set s = live_refs s s.refs (record { blobs = []; layers = [] })

  -- Where it cannot be told what is in use, nothing is deleted.
  unfoldable pub gc_images : Store → Store
  gc_images s = sweep_if s (live_set s)

  -- `apps` are the definitions that `load_or_warn` gives for `app_names()`.
  unfoldable pub live_names : List AppImage → List Text
  live_names [] = []
  live_names (app ∷ apps) =
      (key_name (image_key formats app) ++ whole_name (formats.parse_reference app.reference))
      ++ live_names apps

  unfoldable pub drop_orphan_refs : List AppImage → Store → Store
  drop_orphan_refs apps s = record s { refs = retain (ref_is_live (live_names apps)) s.refs }

  -- The part of `clean` that is about images.
  unfoldable pub clean_images : List AppImage → Store → Store
  clean_images apps s = gc_images (drop_orphan_refs apps s)

-- `strip_prefix(prefix)?.split('-').next()?.parse().ok()`
abbrev first_field : List Text → Option Text
first_field [] = none
first_field (f ∷ fs) = some f

abbrev parse_i32 : Option Text → Option ℤ
parse_i32 none = none
parse_i32 (some field) = parse_signed i32_max field

unfoldable pub pid_of : Text → Text → Option ℤ
pid_of name prefix =
    if starts_with name prefix
    then parse_i32 (first_field (split b'-' (drop (length prefix) name)))
    else none
