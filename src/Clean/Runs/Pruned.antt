-- ===== src/Clean/Runs/Pruned.antt =====
-- What is left of a run whose process is gone is removed.
use climate.Common.{
  Text, codes, text_eq, text_eq_refl, retain-In, In, not, Bool-cases, if◌then◌else◌, Option, none,
  some, List, [], ◌∷◌, inl, inr, Bool, true, false, Result, ok, err, ◌≡◌, refl, ap, arith,
}
use climate.Common.Error.{Error}
use climate.Common.Action.{
  Action, ◌>>◌, Promises, Promises-weaken, when-Promises, Ends, pure, modify, change, each,
  modify-Promises, bind-Promises, each-Promises,
}
use climate.Clean.Runs.{
  Traces, System, without, is_over, deletes, delete_container, prune_container, remove_bundle,
  prune_bundle, merged, tried, unmount, remove_overlay, remove_if, prune_overlay, is_mounted,
  prune_dir, prune_runtime,
}

-- Every directory can be listed and removed, and every mount can be taken down.
pub record IsWorking (sys : System) : Type 0 where
  pub lists : (dir : Text) → sys.can_list dir ≡ true
  pub removes : (id : Text) → sys.removes_dir id ≡ true
  pub unmounts : (path : Text) (mounts : Option Text) → (sys.fusermount path mounts).0 ≡ some true

-- Nothing is there of a run whose process is gone.
pub record IsPruned (sys : System) (s : Traces) : Type 0 where
  pub containers : (id : Text) → In id s.containers → is_over sys (codes "climate-") id ≡ false
  pub bundles : (id : Text) → In id s.bundles → is_over sys (codes "climate-") id ≡ false
  pub overlays : (id : Text) → In id s.overlays → is_over sys [] id ≡ false

-- What is to be removed is among what is still to come.
abbrev Pending : (Text → Bool) → List Text → List Text → Type 0
Pending p ids left = (id : Text) → p id ≡ true → In id ids → In id left

left_skipped :
    (p : Text → Bool) (id : Text) (ids left : List Text)
    → p id ≡ false
    → Pending p ids (id ∷ left)
    → Pending p ids left
left_skipped p id ids left live h other over i = elim (h other over i) [
  | inl e ↦ ground (arith, ap p e)
  | inr j ↦ j
]

left_removed :
    (p : Text → Bool) (id : Text) (ids left : List Text)
    → Pending p ids (id ∷ left)
    → Pending p (without id ids) left
left_removed p id ids left h other over i =
    let (j, differs) = retain-In (λ n. not (text_eq n id)) other ids i in
    elim (h other over j) [
      | inl e ↦ ground (arith, ap (λ n. text_eq n id) e, text_eq_refl id)
      | inr later ↦ later
    ]

left_none :
    (p : Text → Bool) (ids : List Text) → Pending p ids [] → (id : Text) → In id ids → p id ≡ false
left_none p ids h id i = elim (Bool-cases (p id)) [
  | inl over ↦ elim (h id over i) [ ]
  | inr live ↦ live
]

-- Work that cannot fail.
abbrev Goes : (P Q : Traces → Type 0) → Action Traces (Unit {0}) → Type 0
Goes P Q m = Promises P m (λ done s. Q s) (λ s. ⊥)

then-Goes :
    (P Q R : Traces → Type 0) (m next : Action Traces (Unit {0}))
    → Goes P Q m
    → Goes Q R next
    → Goes P R (m >> next)
then-Goes P Q R m next h k = bind-Promises (λ done s. Q s) m (λ done. next) h (λ done. k)

when-Goes :
    (P Q : Traces → Type 0) (b : Bool) (m : Action Traces (Unit {0}))
    → (b ≡ false → (s : Traces) → P s → Q s)
    → Goes P Q m
    → Goes P Q (if b then m else pure tt)
when-Goes P Q b m skip h = when-Promises (λ done s. Q s) b m skip (λ over. h)

change-Goes :
    (P Q : Traces → Type 0) (f : Traces → Result Error Traces) (g : Traces → Traces)
    → ((s : Traces) → f s ≡ ok (g s))
    → ((s : Traces) → P s → Q (g s))
    → Goes P Q (change f)
unfolding Ends
change-Goes P Q f g e h = record { ends = λ s p. rw (e s) (h s p) }

module _ (sys : System) (works : IsWorking sys) where
  prune_dir-Goes :
      (dir : Text) (ids : Traces → List Text) (p : Text → Bool)
      (f : Text → Action Traces (Unit {0})) (P : Traces → Type 0)
      → ((id : Text) (left : List Text)
          → Goes
              (λ s. P s × Pending p (ids s) (id ∷ left))
              (λ s. P s × Pending p (ids s) left)
              (f id))
      → Goes P (λ s. P s × ((id : Text) → In id (ids s) → p id ≡ false)) (prune_dir sys dir ids f)
  unfolding prune_dir Ends
  prune_dir-Goes dir ids p f P step =
      bind-Promises (λ found s. P s × Pending p (ids s) found) _ (each f)
        (record { ends = λ s q. rw (works.lists dir) (q, λ id over i. i) })
        (λ found. record {
          ends = λ s q.
              emptied (each f found s)
                ((each-Promises (λ left s. P s × Pending p (ids s) left) f step found).ends s q);
        })
    where
      emptied :
          (out : Result Error (Unit {0}) × Traces)
          → Ends (λ done s. P s × Pending p (ids s) []) (λ s. ⊥) out
          → Ends (λ done s. P s × ((id : Text) → In id (ids s) → p id ≡ false)) (λ s. ⊥) out
      emptied (ok done, s) q = (q.0, left_none p (ids s) q.1)
      emptied (err e, s) q = q

  deletes-removes : (id : Text) → deletes sys id ≡ true
  unfolding deletes
  deletes-removes id = ground (arith, works.removes id)

  abbrev over : Text → Bool
  over = is_over sys (codes "climate-")

  abbrev NoContainers : Traces → Type 0
  NoContainers s = Unit {0} × ((id : Text) → In id s.containers → over id ≡ false)

  abbrev NoBundles : Traces → Type 0
  NoBundles s = NoContainers s × ((id : Text) → In id s.bundles → over id ≡ false)

  prune_container-Goes :
      (id : Text) (left : List Text)
      → Goes
          (λ s. Unit {0} × Pending over s.containers (id ∷ left))
          (λ s. Unit {0} × Pending over s.containers left)
          (prune_container sys id)
  unfolding prune_container delete_container
  prune_container-Goes id left =
      when-Goes _ _ (over id) (modify (delete_container sys id))
        (λ live s q. (q.0, left_skipped over id s.containers left live q.1))
        (modify-Promises _ (delete_container sys id)
          λ s q. rw (deletes-removes id) (q.0, left_removed over id s.containers left q.1))

  prune_bundle-Goes :
      (id : Text) (left : List Text)
      → Goes
          (λ s. NoContainers s × Pending over s.bundles (id ∷ left))
          (λ s. NoContainers s × Pending over s.bundles left)
          (prune_bundle sys id)
  unfolding prune_bundle remove_bundle
  prune_bundle-Goes id left =
      when-Goes _ _ (over id) (change (remove_bundle sys id))
        (λ live s q. (q.0, left_skipped over id s.bundles left live q.1))
        (change-Goes _ _ (remove_bundle sys id) (λ s. record s { bundles = without id s.bundles })
          (λ s. rw (works.removes id) refl) (λ s q. (q.0, left_removed over id s.bundles left q.1)))

  remove_if-Goes :
      (id : Text) (left : List Text)
      → Goes
          (λ s. NoBundles s × Pending (is_over sys []) s.overlays (id ∷ left))
          (λ s. NoBundles s × Pending (is_over sys []) s.overlays left)
          (remove_if sys id true)
  unfolding remove_overlay
  remove_if-Goes id left =
      change-Goes _ _ (remove_overlay sys id) (λ s. record s { overlays = without id s.overlays })
        (λ s. rw (works.removes id) refl)
        (λ s q. (q.0, left_removed (is_over sys []) id s.overlays left q.1))

  unmount-Goes :
      (path id : Text) (left : List Text)
      → Promises
          (λ s. NoBundles s × Pending (is_over sys []) s.overlays (id ∷ left))
          (unmount sys path)
          (λ free s.
            (free ≡ true) × (NoBundles s × Pending (is_over sys []) s.overlays (id ∷ left)))
          (λ s. ⊥)
  unfolding unmount Ends
  unmount-Goes path id left = record {
    ends = λ s q.
        go s q (is_mounted s.mounts path) (sys.fusermount path s.mounts)
          (works.unmounts path s.mounts);
  }
    where
      go :
          (s : Traces)
          → NoBundles s × Pending (is_over sys []) s.overlays (id ∷ left)
          → (b : Bool) (out : Option Bool × Option Text) → out.0 ≡ some true
          → Ends
              (λ free s.
                (free ≡ true) × (NoBundles s × Pending (is_over sys []) s.overlays (id ∷ left)))
              (λ s. ⊥)
              (if b then tried sys path out s else (ok true, s))
      go s q true (none, mounts) e = cc
      go s q true (some true, mounts) e = (refl, q)
      go s q true (some false, mounts) e = cc
      go s q false out e = (refl, q)

  prune_overlay-Goes :
      (id : Text) (left : List Text)
      → Goes
          (λ s. NoBundles s × Pending (is_over sys []) s.overlays (id ∷ left))
          (λ s. NoBundles s × Pending (is_over sys []) s.overlays left)
          (prune_overlay sys id)
  unfolding prune_overlay
  prune_overlay-Goes id left =
      when-Goes _ _ (is_over sys [] id) _
        (λ live s q. (q.0, left_skipped (is_over sys []) id s.overlays left live q.1))
        (bind-Promises _ (unmount sys (merged sys id)) (remove_if sys id)
          (unmount-Goes (merged sys id) id left)
          (λ free. record { ends = λ s q. rw q.0 ((remove_if-Goes id left).ends s q.1) }))

  prune_runtime-Goes : Goes (λ s. Unit {0}) (IsPruned sys) (prune_runtime sys)
  unfolding prune_runtime
  prune_runtime-Goes =
      then-Goes _ NoContainers _ _ _
        (prune_dir-Goes (codes "containers") (λ s. s.containers) over (prune_container sys) _
          prune_container-Goes)
        (then-Goes _ NoBundles _ _ _
          (prune_dir-Goes (codes "bundles") (λ s. s.bundles) over (prune_bundle sys) NoContainers
            prune_bundle-Goes)
          (Promises-weaken _
            (prune_dir-Goes (codes "overlays") (λ s. s.overlays) (is_over sys [])
              (prune_overlay sys) NoBundles prune_overlay-Goes)
            (λ s done q. record { containers = q.0.0.1; bundles = q.0.1; overlays = q.1 })
            (λ s q. q)))

-- Where the directories can be listed and removed and the mounts can be taken down, cleaning up after
-- runs does not fail, and nothing is left of a run whose process is gone: no container, no bundle and no
-- root filesystem.
pub prune_runtime-IsPruned :
    (sys : System) (s : Traces)
    → IsWorking sys
    → Ends (λ done s'. IsPruned sys s') (λ s'. ⊥) (prune_runtime sys s)
prune_runtime-IsPruned sys s works = (prune_runtime-Goes sys works).ends s tt
