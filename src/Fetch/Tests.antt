-- ===== src/Fetch/Tests.antt =====
-- A registry with one image of two layers, an empty store, and an image that lists a layer twice.
use climate.Common.{
  Text, codes, text_eq, some, List, [], ◌∷◌, true, false, ok, err, Result-cases, ◌≡◌, refl, inl,
  inr,
}
use climate.Common.Error.{not_finalised, missing_blob}
use climate.Store.{
  all_written, Store, has_layer, has_blob, read_blob, write_blob, digest_path, is_clean, record_ref,
  marker_name, find_blob,
}
use climate.Store.Action.{Ends}
use climate.Store.Kept.{Kept}
use climate.Fetch.{
  Descriptor, Remote, whole, fetch_image, fetch_layers, fetch_layer, fetch_config, missing_layers,
  download_blob, extract_layer, commit_blob, finalise_layer, find_file, temp_path, reader_of,
}
use climate.Fetch.Complete.{IsAddressed, IsComplete, IsPulled, fetch_image-Ends}

abbrev layer : Text → Descriptor
layer digest = record { digest = digest; media_type = codes "application/tar+gzip" }

abbrev remote_of : List Descriptor → Remote
remote_of layers = record {
  pull_image_manifest = λ reference.
      some (record { config = layer (codes "sha256:cd"); layers = layers }, codes "sha256:ab");
  pull_manifest_raw = λ reference digest. some (codes "{}");
  pull_blob = λ reference descriptor. whole (codes "blob");
  completed = λ layers. layers;
  unique_id = λ n. codes "1-2";
  opens_zstd = λ bytes. true;
  unpacks = λ compression bytes. true;
  is_empty_dir = λ path. false;
  writes = record { blob = λ path. all_written; marker = λ name. all_written };
}

abbrev remote : Remote
remote = remote_of (layer (codes "sha256:e1") ∷ layer (codes "sha256:e2") ∷ [])

abbrev empty : Store
empty = record { refs = []; blobs = []; layers = []; others = [] }

complete : IsComplete remote
unfolding IsComplete
complete ls l i = i

no_blob : {A : Type 0} (digest bytes : Text) → read_blob empty digest ≡ ok bytes → A
unfolding read_blob find_blob
no_blob digest bytes h = elim (Result-cases (digest_path digest)) [
  | inr (e, bad) ↦ let failed : err e ≡ ok bytes = rw bad at h in cc
  | inl (path, e) ↦ let failed : err (missing_blob digest) ≡ ok bytes = rw e at h in cc
]

addressed : IsAddressed remote empty (codes "a/b:1")
unfolding IsAddressed
addressed m digest raw bytes e f h = no_blob digest bytes h

fetch_image-Ends_example :
    Ends
      (λ done s'. IsPulled remote s' (codes "a/b:1"))
      (Kept empty)
      (fetch_image remote (codes "a/b:1") empty)
fetch_image-Ends_example =
    fetch_image-Ends remote (codes "a/b:1") empty complete
      (record { blob = λ path. refl; marker = λ name. refl }) addressed

fetched : (fetch_image remote (codes "a/b:1") empty).0 ≡ ok tt
unfolding fetch_image fetch_layers fetch_layer fetch_config missing_layers download_blob
    extract_layer commit_blob finalise_layer find_file temp_path reader_of has_layer has_blob
    read_blob write_blob digest_path is_clean record_ref marker_name find_blob text_eq
fetched = refl

-- A layer that the manifest lists twice is fetched twice, and the second renaming finds the first.
listed_twice :
    (fetch_image
      (remote_of (layer (codes "sha256:e1") ∷ layer (codes "sha256:e1") ∷ []))
      (codes "a/b:1")
      empty).0
    ≡ err (not_finalised (codes "sha256:e1"))
unfolding fetch_image fetch_layers fetch_layer fetch_config missing_layers download_blob
    extract_layer commit_blob finalise_layer find_file temp_path reader_of has_layer has_blob
    read_blob write_blob digest_path is_clean record_ref marker_name find_blob text_eq
listed_twice = refl
