-- ===== src/Spec/Tests.antt =====
-- A definition that shares the working directory and a configuration file, on a host where every path
-- is there.
use climate.Common.{
  Text, codes, text_eq, any, Option, none, some, List, [], ◌∷◌, ◌++◌, map, true, false, ℕ, ok, ◌≡◌,
  refl, All,
}
use climate.Config.{localnet, RunConfig, AppConfig}
use climate.Spec.Limits.{resources}
use climate.Spec.Limits.Tests.{thousandths}
use climate.Spec.Paths.{is_root, expand_path, join_path}
use climate.Spec.Process.{
  ImageExecConfig, entrypoint_words, argument_words, command, environment, sets_path,
}
use climate.Spec.Process.Argv.{command_lem, environment_lem}
use climate.Spec.Mounts.{
  Host, Share, mount_fields, is_readonly, parse_mount, default_mount_dirs, host_dir, check_host_dir,
  ensure_source, extra_mount, extra_mounts_of, extra_mounts, mountpoints, added_mounts, points_for,
  mounts_for,
}
use climate.Spec.Mounts.Fields.{parse_mount_lem}
use climate.Spec.Mounts.Cover.{mountpoints-added_mounts, added_mounts-All}
use climate.Spec.Build.{Rootless, Spec, spec_with, build}
use climate.Spec.Build.Contained.{IsContained, build-IsContained}

abbrev pub host : Host ℕ
host = record {
  home = some (codes "/home/u");
  current_dir = some (codes "/work");
  exists = λ disk path. true;
  is_file = λ disk path. false;
  parent = λ path. none;
  create_dir_all = λ disk path. some disk;
  create_file = λ disk path. some disk;
}

abbrev run : RunConfig ℕ
run = record {
  entrypoint = none;
  args = codes "-v" ∷ [];
  env = codes "A=1" ∷ codes "B" ∷ [];
  mount_cwd = true;
  mount = codes "~/.cfg:ro" ∷ [];
  network = localnet;
  capabilities = 10 ∷ [];
  seccomp_allow = [];
  seccomp_deny = [];
}

abbrev pub cfg : AppConfig ℕ ℕ
cfg = record {
  app = record { name = codes "tool"; description = codes "A tool"; license = codes "MIT" };
  image = record { reference = codes "a/tool:1"; pull = true; install = none };
  run = run;
  limits = record {
    memory = none;
    swap = none;
    memory_high = none;
    cpu = none;
    cpu_shares = none;
    pids = none;
  };
}

abbrev image : Option ImageExecConfig
image = some (record {
  entrypoint = some (codes "/bin/tool" ∷ []);
  cmd = some (codes "--help" ∷ []);
  env = some (codes "HOME=/root" ∷ []);
  working_dir = none;
})

abbrev pub rootless : Rootless
rootless = record { mounts = []; namespaces = codes "user" ∷ [] }

abbrev pub no_variable : Text → Option Text
no_variable name = none

command_lem_example : command run image [] ≡ codes "/bin/tool" ∷ codes "-v" ∷ []
unfolding entrypoint_words
command_lem_example = command_lem run image []

environment_lem_example :
    (any sets_path (environment no_variable run image) ≡ true)
    × ((more : List Text) × (environment no_variable run image ≡ (codes "HOME=/root" ∷ []) ++ more))
environment_lem_example = environment_lem no_variable run image

parse_mount_lem_example :
    (parse_mount (codes "/a")
      ≡ ok (record { source = codes "/a"; destination = codes "/a"; readonly = false }))
    × (parse_mount (codes "/a:ro")
        ≡ ok (record { source = codes "/a"; destination = codes "/a"; readonly = true }))
    × (parse_mount (codes "/a:/b")
        ≡ ok (record { source = codes "/a"; destination = codes "/b"; readonly = false }))
    × (parse_mount (codes "/a:/b:ro")
        ≡ ok (record { source = codes "/a"; destination = codes "/b"; readonly = true }))
parse_mount_lem_example =
    parse_mount_lem (codes "/a") (codes "/b") true (refl, (refl, tt)) (refl, (refl, tt))
      (unfold text_eq in refl)

abbrev shares : List Share
shares =
    record { source = codes "/home/u/.cfg"; destination = codes "/home/u/.cfg"; readonly = true }
    ∷ []

shared : extra_mounts host 0 run ≡ ok (0, shares)
unfolding extra_mounts extra_mounts_of extra_mount parse_mount mount_fields is_readonly expand_path
    join_path is_root ensure_source text_eq
shared = refl

directory : host_dir host run ≡ ok (some (codes "/work"))
unfolding host_dir
directory = refl

directory-checked : check_host_dir host run ≡ ok tt
unfolding check_host_dir host_dir is_root text_eq
directory-checked = refl

pointed :
    mountpoints host 0 (codes "nameserver 1.1.1.1") run
    ≡ ok (0, points_for host (codes "nameserver 1.1.1.1") run (some (codes "/work")) (0, shares))
unfolding mountpoints
pointed = rw (directory, shared) refl

mounted : added_mounts host 0 run ≡ ok (0, mounts_for host run (some (codes "/work")) (0, shares))
unfolding added_mounts
mounted = rw (directory, shared) refl

mountpoints-added_mounts_example :
    map
      (λ p. p.path)
      (points_for host (codes "nameserver 1.1.1.1") run (some (codes "/work")) (0, shares))
    ≡ default_mount_dirs
      ++ (map (λ m. m.destination) (mounts_for host run (some (codes "/work")) (0, shares))
          ++ (codes "/etc/resolv.conf" ∷ []))
mountpoints-added_mounts_example =
    mountpoints-added_mounts host run 0 0 (codes "nameserver 1.1.1.1")
      (0, points_for host (codes "nameserver 1.1.1.1") run (some (codes "/work")) (0, shares))
      (0, mounts_for host run (some (codes "/work")) (0, shares)) pointed mounted refl

added_mounts-All_example :
    All (λ m. is_root m.source ≡ false) (mounts_for host run (some (codes "/work")) (0, shares))
added_mounts-All_example =
    added_mounts-All host run 0 (0, mounts_for host run (some (codes "/work")) (0, shares))
      directory-checked mounted

abbrev built_spec : Spec ℕ
built_spec =
    spec_with host thousandths cfg no_variable rootless true image (codes "/root") [] false
      (codes "/work") (mounts_for host run (some (codes "/work")) (0, shares)) none

no_limits : resources thousandths cfg.limits ≡ ok none
unfolding resources
no_limits = refl

started : command run image [] ≡ codes "/bin/tool" ∷ codes "-v" ∷ []
unfolding command entrypoint_words argument_words
started = refl

built :
    build host thousandths cfg no_variable rootless true image (codes "/root") [] false 0
    ≡ ok (0, built_spec)
unfolding build
built = rw (started, directory, mounted, no_limits) refl

build-IsContained_example : IsContained run rootless (codes "/root") built_spec
build-IsContained_example =
    build-IsContained host thousandths cfg no_variable rootless true image (codes "/root") [] false
      0 (0, built_spec) tt directory-checked built
