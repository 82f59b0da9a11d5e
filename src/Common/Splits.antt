-- ===== src/Common/Splits.antt =====
-- Splitting what was joined gives the fields back.
use climate.Common.Lists.{All, is_empty, retain}
use climate.Common.Strings.{Text, split_on, join, is_whitespace, split_whitespace}
use Prim.Native.Nat.{ℕ}
use mathlib.Core.Path.{◌≡◌, refl, ap, ◌∙◌}
use mathlib.Core.Bool.{Bool, true, false, not}
use mathlib.Core.List.{List, [], ◌∷◌, ◌++◌}

-- No character of the text is a separator.
abbrev pub Lacks : (ℕ → Bool) → Text → Type 0
Lacks p = All (λ c. p c ≡ false)

module _ (p : ℕ → Bool) where
  pub split_on-Lacks : (f : Text) → Lacks p f → split_on p f ≡ f ∷ []
  split_on-Lacks [] h = refl
  split_on-Lacks (c ∷ f) h = rw (h.0, split_on-Lacks f h.1)

  pub split_on-append :
      (sep : ℕ) (f rest : Text)
      → p sep ≡ true
      → Lacks p f
      → split_on p (f ++ sep ∷ rest) ≡ f ∷ split_on p rest
  split_on-append sep [] rest hs h = rw hs
  split_on-append sep (c ∷ f) rest hs h = rw (h.0, split_on-append sep f rest hs h.1)

  pub split_on-join :
      (sep : ℕ) (f : Text) (fs : List Text)
      → p sep ≡ true
      → All (Lacks p) (f ∷ fs)
      → split_on p (join (sep ∷ []) (f ∷ fs)) ≡ f ∷ fs
  split_on-join sep f [] hs h = split_on-Lacks f h.0
  split_on-join sep f (g ∷ fs) hs h =
      split_on-append sep f (join (sep ∷ []) (g ∷ fs)) hs h.0
      ∙ ap (λ l. f ∷ l) (split_on-join sep g fs hs h.1)

-- A field of a table: some characters, none of which is white space.
abbrev pub IsField : Text → Type 0
IsField f = (is_empty f ≡ false) × Lacks is_whitespace f

retain-IsField : (fs : List Text) → All IsField fs → retain (λ f. not (is_empty f)) fs ≡ fs
retain-IsField [] h = refl
retain-IsField (f ∷ fs) h = rw (h.0.0, retain-IsField fs h.1)

IsField-Lacks : (fs : List Text) → All IsField fs → All (Lacks is_whitespace) fs
IsField-Lacks [] h = tt
IsField-Lacks (f ∷ fs) h = (h.0.1, IsField-Lacks fs h.1)

pub split_whitespace-join :
    (sep : ℕ) (f : Text) (fs : List Text)
    → is_whitespace sep ≡ true
    → All IsField (f ∷ fs)
    → split_whitespace (join (sep ∷ []) (f ∷ fs)) ≡ f ∷ fs
split_whitespace-join sep f fs hs h =
    ap (retain (λ g. not (is_empty g)))
      (split_on-join is_whitespace sep f fs hs (IsField-Lacks (f ∷ fs) h))
    ∙ retain-IsField (f ∷ fs) h
