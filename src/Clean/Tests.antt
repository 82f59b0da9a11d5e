-- ===== src/Clean/Tests.antt =====
-- A store with one image, of an app that is still there.
use climate.Common.{Text, codes, text_eq, some, none, [], ◌∷◌, true, ok, ◌≡◌, refl, inl}
use climate.Store.{
  Manifest, Formats, Store, AppImage, find_ref, find_blob, is_clean, digest_path, marker_name,
  read_blob, read_ref, has_layer, image_key, read_manifest, image_config,
}
use climate.Clean.{gc_images, drop_orphan_refs, clean_images}
use climate.Clean.Safety.{gc_images-keeps, gc_images-keeps_layers}
use climate.Clean.Orphans.{drop_orphan_refs-keeps, clean_images-keeps}

abbrev pub manifest : Manifest
manifest = record { config = codes "sha256:cd"; layers = codes "sha256:ef" ∷ [] }

abbrev pub formats : Formats Text
formats = record {
  parse_reference = λ reference. some reference;
  parse_manifest = λ bytes. some manifest;
  parse_config = λ bytes. some bytes;
}

abbrev pub app : AppImage
app = record { name = codes "tool"; reference = codes "a/tool:1"; install = none; pull = true }

abbrev pub store : Store
store = record {
  refs = (codes "old", codes "sha256:ab") ∷ (codes "a+tool:1", codes "sha256:ab") ∷ [];
  blobs =
      ((codes "sha256", codes "ab"), codes "{}")
      ∷ ((codes "sha256", codes "cd"), codes "settings")
      ∷ ((codes "sha256", codes "00"), codes "left over")
      ∷ [];
  layers = (codes "sha256", codes "ef") ∷ (codes "sha256", codes ".extract-1-2") ∷ [];
  others = (codes ".download-1-2", []) ∷ [];
}

pub readable : read_manifest formats store (codes "a/tool:1") ≡ ok (some manifest)
unfolding read_manifest read_ref read_blob find_ref find_blob digest_path is_clean marker_name
    text_eq
readable = refl

pub key : image_key formats app ≡ ok (codes "a/tool:1")
unfolding image_key
key = refl

gc_images-keeps_example :
    (read_manifest formats (gc_images formats store) (codes "a/tool:1") ≡ ok (some manifest))
    × (image_config formats (gc_images formats store) (codes "a/tool:1") manifest
        ≡ image_config formats store (codes "a/tool:1") manifest)
gc_images-keeps_example = gc_images-keeps formats store (codes "a/tool:1") manifest readable

gc_images-keeps_layers_example :
    has_layer (gc_images formats store) (codes "sha256:ef") ≡ has_layer store (codes "sha256:ef")
gc_images-keeps_layers_example =
    gc_images-keeps_layers formats store (codes "a/tool:1") manifest (codes "sha256:ef") readable
      (inl refl)

drop_orphan_refs-keeps_example :
    (read_ref (drop_orphan_refs formats (app ∷ []) store) (codes "a/tool:1")
      ≡ read_ref store (codes "a/tool:1"))
    × (read_ref (drop_orphan_refs formats (app ∷ []) store) (codes "a/tool:1")
        ≡ read_ref store (codes "a/tool:1"))
drop_orphan_refs-keeps_example =
    drop_orphan_refs-keeps formats (app ∷ []) app store (codes "a/tool:1") (codes "a/tool:1")
      (inl refl) key refl

clean_images-keeps_example :
    (read_manifest formats (clean_images formats (app ∷ []) store) (codes "a/tool:1")
      ≡ ok (some manifest))
    × (image_config formats (clean_images formats (app ∷ []) store) (codes "a/tool:1") manifest
        ≡ image_config formats store (codes "a/tool:1") manifest)
clean_images-keeps_example =
    clean_images-keeps formats (app ∷ []) app store (codes "a/tool:1") manifest (inl refl) key
      readable
