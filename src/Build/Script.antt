-- ===== src/Build/Script.antt =====
-- What the build of an image takes from outside, and the run of the install script: `build_config`
-- and `run_script` of src/build.rs.
use climate.Common.{
  Text, codes, ◌==◌, if◌then◌else◌, Option, none, some, List, [], ◌∷◌, ◌++◌, Bool, false, ℕ, Result,
  ok, err, ◌>>=◌,
}
use climate.Common.Error.{Error, script_failed}
use climate.Config.{AppConfig, list, full}
use climate.Spec.Limits.{Float64}
use climate.Spec.Process.{ImageExecConfig}
use climate.Spec.Mounts.{Host, MountPoint, mountpoints}
use climate.Spec.Build.{Spec, Rootless, build}
use climate.Seccomp.{Capabilities, Target, Seacomb, profile}
use climate.Runtime.Overlay.{System, Overlays, mount_new, drop_mount}
use climate.Store.{Writes, Manifest, Formats, Store, Path2, AppImage, image_config}

pub record World (D F K P S : Type 0) : Type 0 where
  pub host : Host D
  pub disk : D
  pub var : Text → Option Text
  pub float : Float64 F
  pub systemd : Bool
  pub rootless : Rootless
  pub caps : Capabilities K
  pub build_capabilities : List K
  pub target : Target
  pub seacomb : Seacomb P S
  pub system : System
  pub formats : Formats (Option ImageExecConfig)
  pub serialise : Manifest → Option Text
  -- `unique_id`, of the build and of the directory of its root filesystem
  pub unique_id : Text
  pub run_dir : Text
  pub is_empty_dir : Path2 → Bool
  pub writes : Writes
  -- `runtime::run`: the exit code
  pub run : Spec K → P → Result Error ℕ

abbrev pub app_image : {F K : Type 0} → AppConfig F K → AppImage
app_image cfg = record {
  name = cfg.app.name;
  reference = cfg.image.reference;
  install = cfg.image.install;
  pull = cfg.image.pull;
}

abbrev pub exit_of : Text → ℕ → Result Error (Unit {0})
exit_of name code = if code == 0 then ok tt else err (script_failed name code)

module _ {D F K P S : Type 0} (world : World D F K P S) where
  unfoldable pub build_config : AppConfig F K → Text → AppConfig F K
  build_config cfg script = record {
    app = cfg.app;
    image = cfg.image;
    run = record {
      entrypoint =
          some (list (codes "/bin/sh" ∷ codes "-ec" ∷ (codes "exec 1>&2" ++ (10 ∷ script)) ∷ []));
      args = [];
      env = [];
      mount_cwd = false;
      mount = [];
      network = full;
      capabilities = world.build_capabilities;
      seccomp_allow = [];
      seccomp_deny = [];
    };
    limits = record {
      memory = none;
      swap = none;
      memory_high = none;
      cpu = none;
      cpu_shares = none;
      pids = none;
    };
  }

  -- In the mounted root filesystem: the specification, the filter, and the run.
  unfoldable pub run_in :
      AppConfig F K → Text → Option ImageExecConfig → Text → Result Error (Unit {0})
  run_in cfg script config root = do
    spec ←
        build world.host world.float (build_config cfg script) world.var world.rootless
          world.systemd config root [] false world.disk
    seccomp ← profile world.caps world.target world.seacomb (build_config cfg script).run
    code ← world.run spec.1 seccomp
    exit_of cfg.app.name code

  -- The root filesystem is unmounted however the run ends.
  abbrev pub run_mounted :
      AppConfig F K
      → Text
      → Option ImageExecConfig
      → Result Error Text × Overlays
      → Result Error (Unit {0}) × Overlays
  run_mounted cfg script config (err e, o) = (err e, o)
  run_mounted cfg script config (ok root, o) =
      (run_in cfg script config root, drop_mount world.system world.run_dir o)

  abbrev run_with :
      AppConfig F K
      → Text
      → Store
      → Manifest
      → Text × Text
      → Overlays
      → Result Error (Option ImageExecConfig × List MountPoint)
      → Result Error (Unit {0}) × Overlays
  run_with cfg script s base dirs o (err e) = (err e, o)
  run_with cfg script s base dirs o (ok (config, points)) =
      run_mounted cfg script config
        (mount_new world.system s world.run_dir base.layers points (some dirs) o)

  -- `dirs` are the upper and the work directory.
  unfoldable pub run_script :
      AppConfig F K
      → Text
      → Text
      → Store
      → Manifest
      → Text × Text
      → Overlays
      → Result Error (Unit {0}) × Overlays
  run_script cfg script base_key s base dirs o = run_with cfg script s base dirs o (do
    config ← image_config world.formats s base_key base
    points ← mountpoints world.host world.disk [] (build_config cfg script).run
    ok (config, points.1))
