-- ===== src/Build/Steps.antt =====
-- What the steps of `build` leave of the store, up to the renaming of the new layer.
use climate.Common.{
  Text, codes, retain, not, ◌&&◌, ◌++◌, true, ok, err, Result, ◌≡◌, refl, ◌∙◌, Bool-cases, inl, inr,
}
use climate.Common.Error.{Error, not_finalised}
use climate.Config.{AppConfig}
use climate.Store.{Manifest, Store, Path2, path_eq}
use climate.Store.Action.{
  Action, Promises, lift, modify, ◌>>◌, pure-Promises, lift-Promises, modify-Promises,
  bind-Promises,
}
use climate.Store.Kept.{Kept, Kept-trans, has_path, has_path-here}
use climate.Fetch.{staging_of, with_layer, without_layer}
use climate.Fetch.Rules.{lift-then, asks-then, without_layer-Kept, with_layer-Kept}
use climate.Runtime.Overlay.{Overlays, layer_dir}
use climate.Build.{World, work_of, make_dir, rename_upper, unless_failed, run_in_layer, run_script}

-- Until the manifest is written, the blobs are those that there were.
abbrev pub Unwritten : Store → Store → Type 0
Unwritten s0 s = Kept s0 s × (s.blobs ≡ s0.blobs)

module _ {D F K P S : Type 0} (world : World D F K P S) (s0 : Store) where
  layers-then :
      {R : Unit {0} → Store → Type 0} (f : Store → Store) (next : Action (Unit {0}))
      → ((s : Store) → Kept s (f s) × ((f s).blobs ≡ s.blobs))
      → Promises (Unwritten s0) next R (Kept s0)
      → Promises (Unwritten s0) (modify f >> next) R (Kept s0)
  layers-then f next h rest =
      bind-Promises (λ done s. Unwritten s0 s) _ _
        (modify-Promises _ f (λ s p. (Kept-trans p.0 (h s).0, (h s).1 ∙ p.1))) (λ done. rest)

  pub Unwritten-Kept : (s : Store) → Unwritten s0 s → Kept s0 s
  Unwritten-Kept s p = p.0

  make_dir-Promises :
      (path : Path2)
      → Promises (Unwritten s0) (make_dir world path) (λ done s. Unwritten s0 s) (Kept s0)
  unfolding make_dir
  make_dir-Promises path = lift-then Unwritten-Kept _ _ (λ done made.
      modify-Promises (λ done s. Unwritten s0 s) (with_layer path)
        (λ s p. (Kept-trans p.0 (with_layer-Kept path s), p.1)))

  unless_failed-Promises :
      (layer : Path2) (r : Result Error (Unit {0}))
      → Promises (Unwritten s0) (unless_failed world layer r) (λ done s. Unwritten s0 s) (Kept s0)
  unless_failed-Promises layer (ok done) = pure-Promises _ _ tt (λ s p. p)
  unless_failed-Promises layer (err e) =
      layers-then (without_layer (staging_of layer)) (lift (err e))
        (λ s. (without_layer-Kept layer s, refl))
        (lift-Promises _ (err e) Unwritten-Kept (λ s a p h. p))

  pub run_in_layer-Promises :
      (cfg : AppConfig F K) (script : Text) (o : Overlays) (base_key : Text) (base : Manifest)
      (layer : Path2)
      → Promises
          (Unwritten s0)
          (run_in_layer world cfg script o base_key base layer)
          (λ done s. Unwritten s0 s)
          (Kept s0)
  unfolding run_in_layer
  run_in_layer-Promises cfg script o base_key base (algo, hex) =
      bind-Promises (λ done s. Unwritten s0 s) _ _ (make_dir-Promises (staging_of (algo, hex)))
        (λ done.
          bind-Promises (λ done s. Unwritten s0 s) _ _ (make_dir-Promises (work_of (algo, hex)))
            (λ done.
              asks-then Unwritten-Kept
                (λ s.
                  ok
                    (run_script world cfg script base_key s base
                      (
                        layer_dir world.system (staging_of (algo, hex)),
                        layer_dir world.system (work_of (algo, hex)),
                      )
                      o).0)
                _
                (λ result.
                  layers-then (without_layer (work_of (algo, hex))) _
                    (λ s. (without_layer-Kept (algo, hex ++ codes "-work") s, refl))
                    (unless_failed-Promises (algo, hex) result))))

  pub rename_upper-Kept :
      (digest : Text) (layer : Path2) (s s' : Store)
      → rename_upper world digest layer s ≡ ok s'
      → Kept s s' × (s'.blobs ≡ s.blobs) × (has_path s'.layers layer ≡ true)
  unfolding rename_upper
  rename_upper-Kept digest layer s s' h =
      elim (Bool-cases (has_path s.layers layer && not (world.is_empty_dir layer))) [
        | inl taken ↦ let bad : err (not_finalised digest) ≡ ok s' = rw taken at h in cc
        | inr free ↦
            let moved : Store = with_layer layer (without_layer (staging_of layer) s) in
            let renamed : Result.ok moved ≡ ok s' = rw free at h in
            let e : moved ≡ s' = cc in
            rw (← e) (
              Kept-trans (without_layer-Kept layer s)
                  (with_layer-Kept layer (without_layer (staging_of layer) s)),
              refl,
              has_path-here
                  (retain (λ p. not (path_eq p layer)) (without_layer (staging_of layer) s).layers)
                  layer,
            )
      ]
