-- ===== src/Clean/Runs/Spared.antt =====
-- Runs that are in progress are left alone.
use climate.Common.{
  Text, codes, text_eq, text_eq_iff, In-retain, In, not, Bool-cases, if◌then◌else◌, Option, none,
  some, List, [], inl, inr, Bool, true, false, ok, ◌≡◌, refl, ap, sym, ◌∙◌, arith,
}
use climate.Common.Action.{
  Action, ◌>>◌, Promises, Ends, each, asks-Promises, modify-Promises, change-Promises,
  bind-Promises, each-Promises, when-Promises,
}
use climate.Clean.Runs.{
  Traces, System, without, is_over, deletes, delete_container, prune_container, remove_bundle,
  prune_bundle, merged, tried, unmount, remove_overlay, remove_if, prune_overlay, is_mounted,
  prune_dir, prune_runtime,
}

-- What is of a run in progress, or of no run, is still there.
pub record IsSpared (sys : System) (s s' : Traces) : Type 0 where
  pub containers :
      (id : Text)
      → is_over sys (codes "climate-") id ≡ false
      → In id s.containers
      → In id s'.containers
  pub bundles :
      (id : Text) → is_over sys (codes "climate-") id ≡ false → In id s.bundles → In id s'.bundles
  pub overlays : (id : Text) → is_over sys [] id ≡ false → In id s.overlays → In id s'.overlays
  pub mounts :
      (path : Text)
      → ((id : Text) → is_over sys [] id ≡ true → text_eq path (merged sys id) ≡ false)
      → is_mounted s.mounts path ≡ true
      → is_mounted s'.mounts path ≡ true

-- What is used of fusermount3: it takes down no mount but the one that it is asked to.
abbrev pub TakesDownOnly : System → Type 0
TakesDownOnly sys =
    (path other : Text) (mounts : Option Text)
    → text_eq other path ≡ false
    → is_mounted mounts other ≡ true
    → is_mounted (sys.fusermount path mounts).1 other ≡ true

without-In :
    (p : Text → Bool) (id other : Text) (ids : List Text)
    → p id ≡ true
    → p other ≡ false
    → In other ids
    → In other (without id ids)
without-In p id other ids over live i = elim (Bool-cases (text_eq other id)) [
  | inl same ↦ ground (arith, ap p ((text_eq_iff other id).0 same))
  | inr differs ↦ In-retain (λ n. not (text_eq n id)) other ids i (rw differs refl)
]

module _ (sys : System) (only : TakesDownOnly sys) (s0 : Traces) where
  -- The rule of a step that keeps what is in progress.
  abbrev Spares : {A : Type 0} → Action Traces A → Type 0
  Spares m = Promises (IsSpared sys s0) m (λ a s. IsSpared sys s0 s) (IsSpared sys s0)

  delete_container-IsSpared :
      (id : Text) (s : Traces)
      → is_over sys (codes "climate-") id ≡ true
      → IsSpared sys s0 s
      → IsSpared sys s0 (delete_container sys id s)
  unfolding delete_container
  delete_container-IsSpared id s over p = elim (Bool-cases (deletes sys id)) [
    | inl gone ↦ rw gone (record {
      containers = λ other live i.
          without-In (is_over sys (codes "climate-")) id other s.containers over live
            (p.containers other live i);
      bundles = p.bundles;
      overlays = p.overlays;
      mounts = p.mounts;
    })
    | inr stays ↦ rw stays p
  ]

  remove_bundle-IsSpared :
      (id : Text) (s s' : Traces)
      → is_over sys (codes "climate-") id ≡ true
      → IsSpared sys s0 s
      → remove_bundle sys id s ≡ ok s'
      → IsSpared sys s0 s'
  unfolding remove_bundle
  remove_bundle-IsSpared id s s' over p h = elim (Bool-cases (sys.removes_dir id)) [
    | inl gone ↦
        let e : record s { bundles = without id s.bundles } ≡ s' = ground arith in
        rw⁻¹ e (record {
          containers = p.containers;
          bundles = λ other live i.
              without-In (is_over sys (codes "climate-")) id other s.bundles over live
                (p.bundles other live i);
          overlays = p.overlays;
          mounts = p.mounts;
        })
    | inr stays ↦ ground arith
  ]

  remove_overlay-IsSpared :
      (id : Text) (s s' : Traces)
      → is_over sys [] id ≡ true
      → IsSpared sys s0 s
      → remove_overlay sys id s ≡ ok s'
      → IsSpared sys s0 s'
  unfolding remove_overlay
  remove_overlay-IsSpared id s s' over p h = elim (Bool-cases (sys.removes_dir id)) [
    | inl gone ↦
        let e : record s { overlays = without id s.overlays } ≡ s' = ground arith in
        rw⁻¹ e (record {
          containers = p.containers;
          bundles = p.bundles;
          overlays = λ other live i.
              without-In (is_over sys []) id other s.overlays over live (p.overlays other live i);
          mounts = p.mounts;
        })
    | inr stays ↦ ground arith
  ]

  unmount-Spares : (id : Text) → is_over sys [] id ≡ true → Spares (unmount sys (merged sys id))
  unfolding unmount Ends
  unmount-Spares id over = record {
    ends = λ s p.
        go s p (is_mounted s.mounts (merged sys id)) (sys.fusermount (merged sys id) s.mounts) refl;
  }
    where
      left_mounted :
          (s : Traces) (o : Option Bool) (mounts : Option Text)
          → IsSpared sys s0 s
          → sys.fusermount (merged sys id) s.mounts ≡ (o, mounts)
          → IsSpared sys s0 (record s { mounts = mounts })
      left_mounted s o mounts p e = record {
        containers = p.containers;
        bundles = p.bundles;
        overlays = p.overlays;
        mounts = λ other apart i.
            ap (λ (out : Option Bool × Option Text). is_mounted out.1 other) (sym e)
            ∙ only (merged sys id) other s.mounts (apart id over) (p.mounts other apart i);
      }

      go :
          (s : Traces)
          → IsSpared sys s0 s
          → (b : Bool) (out : Option Bool × Option Text)
          → sys.fusermount (merged sys id) s.mounts ≡ out
          → Ends
              (λ a s. IsSpared sys s0 s)
              (IsSpared sys s0)
              (if b then tried sys (merged sys id) out s else (ok true, s))
      go s p true (none, mounts) e = left_mounted s none mounts p e
      go s p true (some success, mounts) e = left_mounted s (some success) mounts p e
      go s p false out e = p

  prune_overlay-Spares : (id : Text) → Spares (prune_overlay sys id)
  unfolding prune_overlay
  prune_overlay-Spares id =
      when-Promises _ (is_over sys [] id) _ (λ live s p. p)
        λ over.
          bind-Promises (λ free s. IsSpared sys s0 s) (unmount sys (merged sys id))
            (remove_if sys id) (unmount-Spares id over)
            (λ free.
              when-Promises _ free _ (λ live s p. p)
                λ e.
                  change-Promises _ (remove_overlay sys id) (λ s p. p)
                    (λ s s' p h. remove_overlay-IsSpared id s s' over p h))

  prune_container-Spares : (id : Text) → Spares (prune_container sys id)
  unfolding prune_container
  prune_container-Spares id =
      when-Promises _ (is_over sys (codes "climate-") id) _ (λ live s p. p)
        λ over.
          modify-Promises _ (delete_container sys id) (λ s p. delete_container-IsSpared id s over p)

  prune_bundle-Spares : (id : Text) → Spares (prune_bundle sys id)
  unfolding prune_bundle
  prune_bundle-Spares id =
      when-Promises _ (is_over sys (codes "climate-") id) _ (λ live s p. p)
        λ over.
          change-Promises _ (remove_bundle sys id) (λ s p. p)
            (λ s s' p h. remove_bundle-IsSpared id s s' over p h)

  prune_dir-Spares :
      (dir : Text) (ids : Traces → List Text) (f : Text → Action Traces (Unit {0}))
      → ((id : Text) → Spares (f id))
      → Spares (prune_dir sys dir ids f)
  unfolding prune_dir
  prune_dir-Spares dir ids f step =
      bind-Promises (λ found s. IsSpared sys s0 s) _ (each f)
        (asks-Promises _ _ (λ s p. p) (λ s found p e. p))
        (each-Promises (λ left s. IsSpared sys s0 s) f (λ id left. step id))

  then-Spares : (m next : Action Traces (Unit {0})) → Spares m → Spares next → Spares (m >> next)
  then-Spares m next h k =
      bind-Promises (λ done s. IsSpared sys s0 s) m (λ done. next) h (λ done. k)

  prune_runtime-Spares : Spares (prune_runtime sys)
  unfolding prune_runtime
  prune_runtime-Spares =
      then-Spares _ _ (prune_dir-Spares _ _ (prune_container sys) prune_container-Spares) (
        then-Spares _ _ (prune_dir-Spares _ _ (prune_bundle sys) prune_bundle-Spares)
          (prune_dir-Spares _ _ (prune_overlay sys) prune_overlay-Spares))

-- Cleaning up after runs leaves the container, the bundle and the root filesystem of every run whose
-- process is there, and every mount but those at the root filesystems of runs whose process is gone,
-- whatever the system answers, also when the cleaning fails half way. fusermount3 takes down no mount
-- but the one that it is asked to.
pub prune_runtime-IsSpared :
    (sys : System) (s : Traces)
    → TakesDownOnly sys
    → Ends (λ done s'. IsSpared sys s s') (IsSpared sys s) (prune_runtime sys s)
prune_runtime-IsSpared sys s only = (prune_runtime-Spares sys only s).ends s (record {
  containers = λ id live i. i;
  bundles = λ id live i. i;
  overlays = λ id live i. i;
  mounts = λ path apart i. i;
})
