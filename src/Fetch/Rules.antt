-- ===== src/Fetch/Rules.antt =====
-- Work that leaves the refs, the blobs and the layers of the store: what it promises of any fact that
-- such work cannot undo.
use climate.Common.{
  Text, text_eq, retain, not, ◌&&◌, List, [], ◌∷◌, ◌++◌, true, false, ok, err, Result, codes, ◌≡◌,
  refl, ◌∙◌, arith, Bool-cases, inl, inr,
}
use climate.Common.Error.{Error, not_finalised}
use climate.Store.{Store, Path2, path_eq, is_clean, has_layer}
use climate.Store.Action.{
  Action, Promises, modify, modify-Promises, bind-Promises, asks, asks-Promises, lift,
  lift-Promises, ◌>>=◌, ◌>>◌,
}
use climate.Store.Kept.{
  Kept, Kept-trans, has_path, has_path-without, has_path-with, has_path-here, has_layer-Kept,
}
use climate.Fetch.{
  Remote, write_file, without_file, without_layer, with_layer, staging_of, finalise_layer,
}

pub record Stable (P : Store → Type 0) : Type 0 where
  pub step : (s s' : Store) → P s → Kept s s' → P s'

pub Kept-Stable : (s : Store) → Stable (Kept s)
Kept-Stable s = record { step = λ a b k l. Kept-trans k l }

pub has_layer-Stable : (digest : Text) → Stable (λ s. has_layer s digest ≡ ok true)
has_layer-Stable digest = record { step = λ s s' h k. has_layer-Kept digest k h }

pub and-Stable : {P Q : Store → Type 0} → Stable P → Stable Q → Stable (λ s. P s × Q s)
and-Stable p q = record { step = λ s s' h k. (p.step s s' h.0 k, q.step s s' h.1 k) }

pub constant-Stable : (A : Type 0) → Stable (λ s. A)
constant-Stable A = record { step = λ s s' h k. h }

-- What does not depend on the files at the top of the store.
pub record Apart (P : Store → Type 0) : Type 0 where
  pub step : (s : Store) (files : List (Text × Text)) → P s → P (record s { others = files })

pub Stable-Apart : {P : Store → Type 0} → Stable P → Apart P
Stable-Apart stable = record {
  step = λ s files p.
      stable.step s (record s { others = files }) p
        (record { refs = refl; blobs = λ p b h. h; layers = λ p c h. h });
}

-- The files at the top of the store are apart.
pub write_file-Kept : (name bytes : Text) (s : Store) → Kept s (write_file name bytes s)
write_file-Kept name bytes s = record { refs = refl; blobs = λ p b h. h; layers = λ p c h. h }

pub without_file-Kept : (name : Text) (s : Store) → Kept s (without_file name s)
without_file-Kept name s = record { refs = refl; blobs = λ p b h. h; layers = λ p c h. h }

-- No layer is where a layer is unpacked.
dot-apart : (t x : Text) → is_clean x ≡ true → text_eq (b'.' ∷ t) x ≡ false
unfolding text_eq is_clean
dot-apart t [] h = refl
dot-apart t (c ∷ x) h = ground arith

staging-apart : (dest p : Path2) → is_clean p.1 ≡ true → path_eq (staging_of dest) p ≡ false
staging-apart (algo, hex) (a, x) h = ground (arith, dot-apart (codes "extract-" ++ hex) x h)

pub without_layer-Kept : (dest : Path2) (s : Store) → Kept s (without_layer (staging_of dest) s)
without_layer-Kept dest s = record {
  refs = refl;
  blobs = λ p b h. h;
  layers = λ p c h. has_path-without s.layers (staging_of dest) p (staging-apart dest p c) ∙ h;
}

pub with_layer-Kept : (x : Path2) (s : Store) → Kept s (with_layer x s)
with_layer-Kept x s = record {
  refs = refl;
  blobs = λ p b h. h;
  layers = λ p c h. has_path-with s.layers x p h;
}

pub modify-Stable :
    {P : Store → Type 0}
    → Stable P
    → (f : Store → Store) → ((s : Store) → Kept s (f s))
    → Promises P (modify f) (λ done s. P s) P
modify-Stable {P = P} stable f h =
    modify-Promises (λ done s. P s) f (λ s p. stable.step s (f s) p (h s))

pub finalise_layer-Kept :
    (remote : Remote) (digest : Text) (dest : Path2) (s s' : Store)
    → finalise_layer remote digest dest s ≡ ok s'
    → Kept s s' × (has_path s'.layers dest ≡ true)
unfolding finalise_layer
finalise_layer-Kept remote digest dest s s' h =
    elim (Bool-cases (has_path s.layers dest && not (remote.is_empty_dir dest))) [
      | inl taken ↦ let bad : err (not_finalised digest) ≡ ok s' = rw taken at h in cc
      | inr free ↦
          let renamed : Result.ok (with_layer dest (without_layer (staging_of dest) s)) ≡ ok s' =
            rw free at h in
          let e : with_layer dest (without_layer (staging_of dest) s) ≡ s' = cc in
          rw (← e) (
            Kept-trans (without_layer-Kept dest s)
                (with_layer-Kept dest (without_layer (staging_of dest) s)),
            has_path-here
                (retain (λ p. not (path_eq p dest)) (without_layer (staging_of dest) s).layers)
                dest,
          )
    ]

-- One step before the rest: a step that leaves the refs, the blobs and the layers, and one that only
-- looks or decides.
module _ {B : Type 0} {P E : Store → Type 0} {R : B → Store → Type 0} where
  pub kept-then :
      Stable P
      → (f : Store → Store) (next : Action B) → ((s : Store) → Kept s (f s))
      → Promises P next R E
      → Promises P (modify f >> next) R E
  kept-then stable f next h rest =
      bind-Promises (λ done s. P s) (modify f) (λ done. next)
        (modify-Promises (λ done s. P s) f (λ s p. stable.step s (f s) p (h s))) (λ done. rest)

module _ {B : Type 0} {P E : Store → Type 0} {R : B → Store → Type 0}
    (hurt : (s : Store) → P s → E s) where
  pub asks-then :
      {A : Type 0} (f : Store → Result Error A) (next : A → Action B)
      → ((a : A) → Promises P (next a) R E)
      → Promises P (asks f >>= next) R E
  asks-then f next rest =
      bind-Promises (λ a s. P s) (asks f) next (asks-Promises (λ a s. P s) f hurt (λ s a p e. p))
        rest

  pub lift-then :
      {A : Type 0} (r : Result Error A) (next : A → Action B)
      → ((a : A) → r ≡ ok a → Promises P (next a) R E)
      → Promises P (lift r >>= next) R E
  lift-then r next rest =
      bind-Promises (λ a s. P s × (r ≡ ok a)) (lift r) next
        (lift-Promises (λ a s. P s × (r ≡ ok a)) r hurt (λ s a p e. (p, e)))
        (λ a. record { ends = λ s q. (rest a q.1).ends s q.0 })
