-- ===== src/Runtime/Overlay/Layers.antt =====
-- The layers as fuse-overlayfs reads them out of its options.
use climate.Common.{
  Text, codes, contains, any, join, split, split_on-join, Lacks, All, guard, List, [], ◌∷◌, Bool,
  true, false, ℕ, ◌==◌, Result, ok, err, >>=-eq-ok, Bool-cases, inl, inr, ◌≡◌, refl, ap, sym, ◌∙◌,
  arith,
}
use climate.Common.Error.{Error, has_colon, layer_missing}
use climate.Store.{Store, Path2, digest_path}
use climate.Store.Kept.{has_path}
use climate.Runtime.Wait.{lowerdir_arg}
use climate.Runtime.Overlay.{System, reversed, layer_dir, layer_args, lowerdirs}

guard-held : (b : Bool) (e : Error) {u : Unit {0}} → guard b e ≡ ok u → b ≡ true
guard-held true e h = refl
guard-held false e h = cc

any-Lacks : (p : ℕ → Bool) (s : Text) → any p s ≡ false → Lacks p s
any-Lacks p [] h = tt
any-Lacks p (c ∷ s) h = (ground arith, any-Lacks p s (ground arith))

lowerdir_arg-Lacks :
    (path arg : Text) → lowerdir_arg path ≡ ok arg → (path ≡ arg) × Lacks (λ c. c == b':') arg
unfolding lowerdir_arg
lowerdir_arg-Lacks path arg h = elim (Bool-cases (contains path b':')) [
  | inl held ↦ let bad : err (has_colon path) ≡ ok arg = rw held at h in cc
  | inr free ↦
      let good : Result.ok path ≡ ok arg = rw free at h in
      let same : path ≡ arg = cc in (same, rw (← same) (any-Lacks (λ c. c == b':') path free))
]

module _ (system : System) (s : Store) where
  -- The arguments are the directories of the layers, each of which is there.
  pub ArgsOf : List Text → List Text → Type 0
  ArgsOf [] [] = Unit
  ArgsOf [] (a ∷ args) = ⊥
  ArgsOf (d ∷ digests) [] = ⊥
  ArgsOf (d ∷ digests) (a ∷ args) =
      ((path : Path2) × (digest_path d ≡ ok path)
        × (has_path s.layers path ≡ true)
        × (layer_dir system path ≡ a))
      × ArgsOf digests args

  layer_args-ArgsOf :
      (digests args : List Text)
      → layer_args system s digests ≡ ok args
      → ArgsOf digests args × All (Lacks (λ c. c == b':')) args
  unfolding layer_args ArgsOf
  layer_args-ArgsOf [] args h = let e : [] ≡ args = cc in rw (← e) (tt, tt)
  layer_args-ArgsOf (d ∷ digests) args h =
      let (path, e, h1) = >>=-eq-ok (digest_path d) _ h in
      let (done, there, h2) = >>=-eq-ok (guard (has_path s.layers path) (layer_missing d)) _ h1 in
      let (arg, checked, h3) = >>=-eq-ok (lowerdir_arg (layer_dir system path)) _ h2 in
      let (rest, more, h4) = >>=-eq-ok (layer_args system s digests) _ h3 in
      let (same, free) = lowerdir_arg-Lacks (layer_dir system path) arg checked in
      let (args_of, lacks) = layer_args-ArgsOf digests rest more in
      let e' : arg ∷ rest ≡ args = cc in
      rw (← e') (
        ((path, e, guard-held (has_path s.layers path) (layer_missing d) there, same), args_of),
        (free, lacks),
      )

  -- The layers that fuse-overlayfs reads between the colons of its option are the stub and then the
  -- directories of the image's layers, topmost first, each of which is in the store.
  pub split-lowerdirs :
      (stub : Text) (layers dirs : List Text)
      → lowerdirs system s stub layers ≡ ok dirs
      → (args : List Text) × (split b':' (join (codes ":") dirs) ≡ stub ∷ args)
        × ArgsOf (reversed layers) args
  unfolding lowerdirs
  split-lowerdirs stub layers dirs h =
      let (first, checked, h1) = >>=-eq-ok (lowerdir_arg stub) _ h in
      let (args, made, h2) = >>=-eq-ok (layer_args system s (reversed layers)) _ h1 in
      let (same, free) = lowerdir_arg-Lacks stub first checked in
      let (args_of, lacks) = layer_args-ArgsOf (reversed layers) args made in
      let e : first ∷ args ≡ dirs = cc in
      (
        args,
        ap (λ ds. split b':' (join (codes ":") ds)) (sym e)
            ∙ (split_on-join (λ c. c == b':') b':' first args refl (free, lacks)
                ∙ ap (λ f. f ∷ args) (sym same)),
        args_of,
      )
