-- ===== src/Spec/Build.antt =====
-- `capabilities`, `build` and `check` of src/spec.rs. Parameters are the specification that the
-- oci_spec package starts from, the host, its variables, and whether the program is built with the
-- feature `systemd`. The builders of the package do not fail.
pub mod Contained
use climate.Common.{
  Text, codes, not, if◌then◌else◌, Option, none, some, List, [], ◌∷◌, ◌++◌, Bool, true, false, ℕ,
  Result, ok, err, ◌>>=◌, ◌>>◌, guard, context,
}
use climate.Common.Error.{Error, no_command, no_current_dir}
use climate.Config.{Network, full, no_network, localhost, localnet, RunConfig, AppConfig}
use climate.Spec.Limits.{Float64, LinuxResources, resources}
use climate.Spec.Process.{ImageExecConfig, no_words, command, environment}
use climate.Spec.Mounts.{Host, Mount, host_dir, added_mounts, check_mounts}

pub record LinuxCapabilities (K : Type 0) : Type 0 where
  pub bounding : List K
  pub effective : List K
  pub inheritable : List K
  pub permitted : List K
  pub ambient : List K

unfoldable pub capabilities : {K : Type 0} → RunConfig K → LinuxCapabilities K
capabilities run = record {
  bounding = run.capabilities;
  effective = run.capabilities;
  inheritable = run.capabilities;
  permitted = run.capabilities;
  ambient = run.capabilities;
}

-- What the program reads of `Spec::rootless`.
pub record Rootless : Type 0 where
  pub mounts : List Mount
  pub namespaces : List Text

pub record Spec (K : Type 0) : Type 0 where
  pub root : Text
  pub readonly_root : Bool
  pub terminal : Bool
  pub cwd : Text
  pub args : List Text
  pub env : List Text
  pub no_new_privileges : Bool
  pub capabilities : LinuxCapabilities K
  pub rlimits : List Text
  pub mounts : List Mount
  pub namespaces : List Text
  pub resources : Option LinuxResources

abbrev pub is_private : Network → Bool
is_private full = false
is_private no_network = true
is_private localhost = true
is_private localnet = true

abbrev pub with_network : Network → List Text → List Text
with_network network namespaces =
    if is_private network then namespaces ++ codes "network" ∷ [] else namespaces

-- `unwrap_or_else`
abbrev pub or_root : Option Text → Text
or_root none = codes "/"
or_root (some dir) = dir

abbrev pub image_dir : Option ImageExecConfig → Option Text
image_dir none = none
image_dir (some image) = image.working_dir

-- Without systemd the limits are left out, with a warning on the terminal.
abbrev pub applied : Bool → Option LinuxResources → Option LinuxResources
applied systemd limits = if systemd then limits else none

module _ {D F K : Type 0} (host : Host D) (float : Float64 F) (cfg : AppConfig F K) where
  unfoldable pub check : Result Error (Unit {0})
  check = do limits ← resources float cfg.limits; check_mounts host cfg.run.mount

  abbrev pub cwd_of : Option Text → Option ImageExecConfig → Result Error Text
  cwd_of (some dir) image = context host.current_dir no_current_dir
  cwd_of none image = ok (or_root (image_dir image))

  module _ (var : Text → Option Text) (rootless : Rootless) (systemd : Bool)
      (image : Option ImageExecConfig) (root : Text) (user_args : List Text) (tty : Bool) where
    abbrev pub spec_with : Text → List Mount → Option LinuxResources → Spec K
    spec_with cwd mounts limits = record {
      root = root;
      readonly_root = false;
      terminal = tty;
      cwd = cwd;
      args = command cfg.run image user_args;
      env = environment var cfg.run image;
      no_new_privileges = true;
      capabilities = capabilities cfg.run;
      rlimits = [];
      mounts = rootless.mounts ++ mounts;
      namespaces = with_network cfg.run.network rootless.namespaces;
      resources = applied systemd limits;
    }

    unfoldable pub build : D → Result Error (D × Spec K)
    build disk = do
      guard (not (no_words (command cfg.run image user_args))) (no_command cfg.app.name)
      dir ← host_dir host cfg.run
      cwd ← cwd_of dir image
      mounts ← added_mounts host disk cfg.run
      limits ← resources float cfg.limits
      ok (mounts.0, spec_with cwd mounts.1 limits)
