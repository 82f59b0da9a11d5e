-- ===== src/Build/Tests.antt =====
-- An app whose script is run on a stored base image of one layer.
use climate.Common.{
  Text, codes, text_eq, some, none, [], ◌∷◌, true, false, ℕ, ok, err, ◌≡◌, refl, Option,
}
use climate.Common.Error.{script_failed}
use climate.Config.{AppConfig, no_network}
use climate.Spec.Process.{ImageExecConfig}
use climate.Spec.Limits.Tests.{thousandths}
use climate.Spec.Tests.{host, no_variable}
use climate.Seccomp.{on_x86_64}
use climate.Seccomp.Tests.{caps, seacomb}
use climate.Runtime.Overlay.{Overlays}
use climate.Runtime.Overlay.Tests.{system}
use climate.Store.{
  all_written, Manifest, Formats, Store, has_blob, digest_path, is_clean, find_blob,
}
use climate.Store.Action.{Ends}
use climate.Store.Kept.{Kept}
use climate.Build.{World, build_id, build_digest, build, exit_of}
use climate.Build.Built.{IsBuilt, build-Ends}
use climate.Seccomp.Recorded.{Asked}

abbrev manifest : Manifest
manifest = record { config = codes "sha256:cd"; layers = codes "sha256:a1" ∷ [] }

abbrev formats : Formats (Option ImageExecConfig)
formats = record {
  parse_reference = λ reference. some reference;
  parse_manifest = λ bytes. some manifest;
  parse_config = λ bytes. some none;
}

abbrev world : World ℕ ℕ ℕ (Asked Text) Text
world = record {
  host = host;
  disk = 0;
  var = no_variable;
  float = thousandths;
  systemd = true;
  rootless = record { mounts = []; namespaces = codes "user" ∷ [] };
  caps = caps;
  build_capabilities = 0 ∷ 1 ∷ 3 ∷ 4 ∷ [];
  target = on_x86_64;
  seacomb = seacomb;
  system = system;
  formats = formats;
  serialise = λ m. some (codes "{}");
  unique_id = codes "41-7";
  run_dir = codes "/run/x";
  is_empty_dir = λ path. false;
  writes = record { blob = λ path. all_written; marker = λ name. all_written };
  run = λ spec policy. ok 0;
}

abbrev cfg : AppConfig ℕ ℕ
cfg = record {
  app = record { name = codes "tool"; description = codes "A tool"; license = codes "MIT" };
  image = record {
    reference = codes "a/base:1";
    pull = true;
    install = some (codes "apk add tool");
  };
  run = record {
    entrypoint = none;
    args = [];
    env = [];
    mount_cwd = true;
    mount = [];
    network = no_network;
    capabilities = [];
    seccomp_allow = [];
    seccomp_deny = [];
  };
  limits = record {
    memory = none;
    swap = none;
    memory_high = none;
    cpu = none;
    cpu_shares = none;
    pids = none;
  };
}

abbrev store : Store
store = record {
  refs = (codes "a+base:1", codes "sha256:ab") ∷ [];
  blobs =
      ((codes "sha256", codes "ab"), codes "{}")
      ∷ ((codes "sha256", codes "cd"), codes "settings")
      ∷ [];
  layers = (codes "sha256", codes "a1") ∷ [];
  others = [];
}

abbrev overlays : Overlays
overlays = record { dirs = []; mounted = [] }

named_after_id : build_digest (codes "41-7") ≡ codes "build:417"
unfolding build_digest build_id
named_after_id = refl

unused : has_blob store (build_digest world.unique_id) ≡ ok false
unfolding has_blob build_digest build_id digest_path is_clean find_blob text_eq
unused = refl

build-Ends_example :
    Ends
      (λ done s. IsBuilt world store cfg s)
      (Kept store)
      (build world cfg (codes "apk add tool") overlays store)
build-Ends_example =
    build-Ends world cfg (codes "apk add tool") overlays store unused
      (record { blob = λ path. refl; marker = λ name. refl })

failed : exit_of (codes "tool") 3 ≡ err (script_failed (codes "tool") 3)
failed = refl
