-- ===== src/Runtime/App/Ends.antt =====
-- What the run of an app leaves of its root filesystem and its container, however it ends.
use climate.Common.{
  Text, text_in, none, some, List, true, false, ℕ, Result, ok, err, ◌≡◌, refl, ap, ◌∙◌,
}
use climate.Common.Error.{Error}
use climate.Common.Action.{Ends, Promises, lift, lift-Promises, bind-Promises, finally-Promises}
use climate.Config.{AppConfig}
use climate.Spec.Mounts.{check_host_dir, mountpoints}
use climate.Spec.Build.{Spec, build}
use climate.Pull.{Image, resolve}
use climate.Runtime.App.{
  Machine, State, on_disk, on_store, on_left, on_overlays, image_of, run_mounted, run_definition,
}
use climate.Runtime.Overlay.{merged_of, mount_new, drop_mount}
use climate.Runtime.Overlay.Dirs.{drop_mount-mount_new, mount_new-err}
use climate.Runtime.App.Lifted.{on_disk-Promises, on_store-Promises, on_overlays-Promises}
use climate.Runtime.Run.{Left, nothing_left, run}
use climate.Runtime.Run.Ends.{IsDetached, run-Ends}
use climate.Seccomp.{profile}

module _ {D F K C P S : Type 0} (m : Machine D F K C P S) (cfg : AppConfig F K)
    (user_args : List Text) (w : State D) where
  -- The run has returned what its container exited with, and nothing of it is left.
  pub record IsOver (code : ℕ) (t : State D) : Type 0 where
    pub overlays : t.overlays ≡ w.overlays
    pub left : t.left ≡ nothing_left
    pub image : Image C
    pub root : Text
    pub disk : D
    pub spec : Spec K
    pub policy : P
    pub built :
        build m.host m.float cfg m.var m.rootless m.systemd
          (m.exec_config image.config)
          root
          user_args
          m.is_terminal
          disk
        ≡ ok (t.disk, spec)
    pub confined : profile m.capabilities m.target m.seacomb cfg.run ≡ ok policy
    pub waited : (m.answers spec policy).wait ≡ ok code

  pub record IsFailed (t : State D) : Type 0 where
    pub mounted : t.overlays.mounted ≡ w.overlays.mounted
    pub detached : IsDetached t.left

  abbrev Quiet : State D → Type 0
  Quiet t = (t.overlays ≡ w.overlays) × (t.left ≡ nothing_left)

  abbrev dropped : State D → State D
  dropped t = record t { overlays = drop_mount m.system m.dir t.overlays }

  at_rest : (left : Left) → left ≡ nothing_left → IsDetached left
  at_rest left p = rw p (record { pid = refl; forwarding = refl; raw = refl; resizes = refl })

  Quiet-IsFailed : (t : State D) → Quiet t → IsFailed t
  Quiet-IsFailed t q = record { mounted = ap (λ o. o.mounted) q.0; detached = at_rest t.left q.1 }

  module _
      (deletes : (spec : Spec K) (policy : P) → (m.answers spec policy).deletes_container ≡ true)
      (removes : (spec : Spec K) (policy : P) → (m.answers spec policy).removes_bundle ≡ true) where
    supervised :
        (image : Image C) (root : Text) (disk : D) (spec : Spec K) (policy : P) (t : State D)
        → Quiet (dropped t)
        → build m.host m.float cfg m.var m.rootless m.systemd
            (m.exec_config image.config)
            root
            user_args
            m.is_terminal
            disk
          ≡ ok (t.disk, spec)
        → profile m.capabilities m.target m.seacomb cfg.run ≡ ok policy
        → Ends
            (λ code t'. IsOver code (dropped t'))
            (λ t'. IsFailed (dropped t'))
            (on_left (run (m.answers spec policy) m.is_terminal cfg.run.network) t)
    unfolding Ends
    supervised image root disk spec policy t q built confined =
        go (run (m.answers spec policy) m.is_terminal cfg.run.network t.left) (
          rw q.1 (
            run-Ends (m.answers spec policy) m.is_terminal cfg.run.network (deletes spec policy)
              (removes spec policy)))
      where
        go :
            (out : Result Error ℕ × Left)
            → Ends
                (λ code s. ((m.answers spec policy).wait ≡ ok code) × (s ≡ nothing_left))
                IsDetached
                out
            → Ends
                (λ code t'. IsOver code (dropped t'))
                (λ t'. IsFailed (dropped t'))
                (on_left (λ s. out) t)
        go (ok code, left) h = record {
          overlays = q.0;
          left = h.1;
          image = image;
          root = root;
          disk = disk;
          spec = spec;
          policy = policy;
          built = built;
          confined = confined;
          waited = h.0;
        }
        go (err e, left) h = record { mounted = ap (λ o. o.mounted) q.0; detached = h }

    run_mounted-Promises :
        (image : Image C) (root : Text)
        → Promises
            (λ t. Quiet (dropped t))
            (run_mounted m cfg user_args image root)
            (λ code t. IsOver code (dropped t))
            (λ t. IsFailed (dropped t))
    unfolding run_mounted
    run_mounted-Promises image root =
        bind-Promises
          (λ spec t.
            Quiet (dropped t)
            × ((disk : D) × (build m.host m.float cfg m.var m.rootless m.systemd
                    (m.exec_config image.config) root user_args m.is_terminal disk
                  ≡ ok (t.disk, spec))))
          (on_disk (
            build m.host m.float cfg m.var m.rootless m.systemd (m.exec_config image.config) root
              user_args m.is_terminal))
          _
          (on_disk-Promises _ _ (λ t q. Quiet-IsFailed (dropped t) q)
            (λ t disk spec q e. (q, (t.disk, e))))
          (λ spec.
            bind-Promises
              (λ policy t.
                (Quiet (dropped t)
                  × ((disk : D) × (build m.host m.float cfg m.var m.rootless m.systemd
                          (m.exec_config image.config) root user_args m.is_terminal disk
                        ≡ ok (t.disk, spec))))
                × (profile m.capabilities m.target m.seacomb cfg.run ≡ ok policy))
              (lift (profile m.capabilities m.target m.seacomb cfg.run)) _
              (lift-Promises _ (profile m.capabilities m.target m.seacomb cfg.run)
                (λ t q. Quiet-IsFailed (dropped t) q.0) (λ t policy q e. (q, e)))
              (λ policy. record {
                ends = λ t q. supervised image root q.0.1.0 spec policy t q.0.0 q.0.1.1 q.1;
              }))

    -- The run of an app that exits with a code has been one of the container that was built from its
    -- definition and confined by its profile, and the code is the one waited for; it leaves no root
    -- filesystem, no mount, no container and no bundle. A run that fails, wherever it does, leaves
    -- nothing mounted, passes no signal on, and has the bridge down and the terminal as it was. The
    -- directory of the root filesystem is one that no other run has, and what is mounted or made can be
    -- unmounted and removed.
    pub run_definition-Ends :
        text_in w.overlays.dirs m.dir ≡ false
        → text_in w.overlays.mounted m.dir ≡ false
        → m.system.fusermount3 (merged_of m.dir) ≡ some true
        → w.left ≡ nothing_left
        → Ends IsOver IsFailed (run_definition m cfg user_args w)
    unfolding run_definition
    run_definition-Ends fresh free gone idle =
        (bind-Promises (λ done t. Quiet t) (lift (check_host_dir m.host cfg.run)) _
            (lift-Promises _ (check_host_dir m.host cfg.run) Quiet-IsFailed (λ t done q e. q))
            (λ done.
              bind-Promises (λ image t. Quiet t)
                (on_store (resolve m.formats m.makers (image_of cfg))) _
                (on_store-Promises _ _ (λ t store q. Quiet-IsFailed (record t { store = store }) q)
                  (λ t store image q. q))
                (λ image.
                  bind-Promises (λ points t. Quiet t)
                    (on_disk (λ disk. mountpoints m.host disk m.resolv_conf cfg.run)) _
                    (on_disk-Promises _ _ Quiet-IsFailed (λ t disk points q e. q))
                    (λ points.
                      bind-Promises (λ root t. Quiet (dropped t))
                        (on_overlays (λ s o. mount_new m.system s m.dir image.layers points none o))
                        _
                        (on_overlays-Promises _ _
                          (λ t e q h. record {
                            mounted =
                                mount_new-err m.system t.store m.dir image.layers points t.overlays
                                  e h
                                ∙ ap (λ o. o.mounted) q.0;
                            detached = at_rest t.left q.1;
                          })
                          (λ t root q h. (
                            drop_mount-mount_new m.system t.store m.dir image.layers points none
                                  t.overlays root (rw q.0 fresh) (rw q.0 free) gone h
                                ∙ q.0,
                            q.1,
                          )))
                        (λ root.
                          finally-Promises (run_mounted m cfg user_args image root) dropped
                            (run_mounted-Promises image root) (λ t code h. h) (λ t h. h)))))).ends
          w (refl, idle)
