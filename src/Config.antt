-- ===== src/Config.antt =====
-- The definition of an app, src/config.rs. `F` stands for `f64` and `K` for the capabilities of the
-- oci_spec package.
pub mod Merge
pub mod Load
pub mod Names
pub mod Sync
pub mod Tests
use climate.Common.{Text, Option, List, Bool}
use climate.Spec.Limits.{LimitsConfig}

pub record AppMeta : Type 0 where
  pub name : Text
  pub description : Text
  pub license : Text

pub record ImageConfig : Type 0 where
  pub reference : Text
  pub pull : Bool
  pub install : Option Text

pub data Entrypoint : Type 0 where
  string : Text → Entrypoint
  list : List Text → Entrypoint

-- `no_network` is the source's `None`.
pub data Network : Type 0 where
  full no_network localhost localnet : Network

pub record RunConfig (K : Type 0) : Type 0 where
  pub entrypoint : Option Entrypoint
  pub args : List Text
  pub env : List Text
  pub mount_cwd : Bool
  pub mount : List Text
  pub network : Network
  pub capabilities : List K
  pub seccomp_allow : List Text
  pub seccomp_deny : List Text

pub record AppConfig (F K : Type 0) : Type 0 where
  pub app : AppMeta
  pub image : ImageConfig
  pub run : RunConfig K
  pub limits : LimitsConfig F
