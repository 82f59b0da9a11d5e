-- ===== src/Runtime/App.antt =====
-- `AppConfig::run` of src/config.rs: the run of an app, put together of what the other modules model. The
-- parameters of those are gathered in a record.
pub mod Lifted
pub mod Ends
pub mod Tests
use climate.Common.{Text, Option, none, some, List, [], ◌∷◌, Bool, ℕ, Result, ok, err}
use climate.Common.Error.{Error}
use climate.Common.Action.{Action, lift, change, finally, ◌>>=◌, ◌>>◌}
use climate.Config.{AppConfig}
use climate.Spec.Limits.{Float64}
use climate.Spec.Process.{ImageExecConfig}
use climate.Spec.Mounts.{Host, MountPoint, check_host_dir, mountpoints}
use climate.Spec.Build.{Rootless, Spec, build}
use climate.Store.{Formats, Store, AppImage}
use climate.Pull.{Makers, Image, resolve}
use climate.Runtime.Overlay.{System, Overlays, mount_new, drop_mount}
use climate.Runtime.Run.{Left, Answers, run}
use climate.Seccomp.{Capabilities, Seacomb, Target, profile}

pub record Machine (D F K C P S : Type 0) : Type 0 where
  pub host : Host D
  pub float : Float64 F
  pub var : Text → Option Text
  pub rootless : Rootless
  pub systemd : Bool
  pub formats : Formats C
  -- the part of an image's settings that is about its process
  pub exec_config : C → Option ImageExecConfig
  pub makers : Makers
  pub system : System
  -- the directory below overlays/ that this run takes
  pub dir : Text
  pub resolv_conf : Text
  pub capabilities : Capabilities K
  pub target : Target
  pub seacomb : Seacomb P S
  -- whether the three standard streams are terminals
  pub is_terminal : Bool
  pub answers : Spec K → P → Answers

-- What a run works on: the disk, the store, the root filesystems, and what is left of the container.
pub record State (D : Type 0) : Type 0 where
  pub disk : D
  pub store : Store
  pub overlays : Overlays
  pub left : Left

abbrev disk_of : {D A : Type 0} → State D → Result Error (D × A) → Result Error A × State D
disk_of w (ok (disk, a)) = (ok a, record w { disk = disk })
disk_of w (err e) = (err e, w)

abbrev pub on_disk : {D A : Type 0} → (D → Result Error (D × A)) → Action (State D) A
on_disk f w = disk_of w (f w.disk)

abbrev pub on_store : {D A : Type 0} → Action Store A → Action (State D) A
on_store m w = let (r, store) = m w.store in (r, record w { store = store })

abbrev pub on_left : {D A : Type 0} → Action Left A → Action (State D) A
on_left m w = let (r, left) = m w.left in (r, record w { left = left })

abbrev pub on_overlays :
    {D A : Type 0} → (Store → Overlays → Result Error A × Overlays) → Action (State D) A
on_overlays m w = let (r, overlays) = m w.store w.overlays in (r, record w { overlays = overlays })

abbrev pub image_of : {F K : Type 0} → AppConfig F K → AppImage
image_of cfg = record {
  name = cfg.app.name;
  reference = cfg.image.reference;
  install = cfg.image.install;
  pull = cfg.image.pull;
}

module _ {D F K C P S : Type 0} (m : Machine D F K C P S) (cfg : AppConfig F K)
    (user_args : List Text) where
  -- With the root filesystem in place.
  unfoldable pub run_mounted : Image C → Text → Action (State D) ℕ
  run_mounted image root = do
    spec ← on_disk (
        build m.host m.float cfg m.var m.rootless m.systemd (m.exec_config image.config) root
          user_args m.is_terminal)
    policy ← lift (profile m.capabilities m.target m.seacomb cfg.run)
    on_left (run (m.answers spec policy) m.is_terminal cfg.run.network)

  -- The code is the one that the program exits with.
  unfoldable pub run_definition : Action (State D) ℕ
  run_definition = do
    lift (check_host_dir m.host cfg.run)
    image ← on_store (resolve m.formats m.makers (image_of cfg))
    points ← on_disk (λ disk. mountpoints m.host disk m.resolv_conf cfg.run)
    root ← on_overlays (λ s o. mount_new m.system s m.dir image.layers points none o)
    finally (run_mounted image root)
        (λ w. record w { overlays = drop_mount m.system m.dir w.overlays })
