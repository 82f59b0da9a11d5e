-- ===== src/Common/Members.antt =====
-- Membership in a list, and what `retain`, `all` and `any` say of the members.
use mathlib.Core.Path.{◌≡◌, refl, ap, ◌∙◌, sym}
use mathlib.Core.Bool.{Bool, true}
use mathlib.Core.Logic.{◌⊎◌, inl, inr}
use mathlib.Core.List.{List, [], ◌∷◌, ◌++◌}
use native.Mathlib.Omega.{arith}
use climate.Common.Tests.{Bool-cases}
use climate.Common.Lists.{All, retain, all, any, In}

module _ {A : Type 0} where
  pub In-append_left : (x : A) (xs ys : List A) → In x xs → In x (xs ++ ys)
  In-append_left x [] ys i = elim i [ ]
  In-append_left x (y ∷ xs) ys (inl e) = inl e
  In-append_left x (y ∷ xs) ys (inr i) = inr (In-append_left x xs ys i)

  pub In-append_right : (x : A) (xs ys : List A) → In x ys → In x (xs ++ ys)
  In-append_right x [] ys i = i
  In-append_right x (y ∷ xs) ys i = inr (In-append_right x xs ys i)

  pub In-append : (x : A) (xs ys : List A) → In x (xs ++ ys) → In x xs ⊎ In x ys
  In-append x [] ys i = inr i
  In-append x (y ∷ xs) ys (inl e) = inl (inl e)
  In-append x (y ∷ xs) ys (inr i) = lift (In-append x xs ys i)
    where
      lift : In x xs ⊎ In x ys → In x (y ∷ xs) ⊎ In x ys
      lift (inl j) = inl (inr j)
      lift (inr j) = inr j

module _ {A : Type 0} (p : A → Bool) where
  pub In-retain : (x : A) (xs : List A) → In x xs → p x ≡ true → In x (retain p xs)
  In-retain x [] i h = elim i [ ]
  In-retain x (y ∷ xs) (inl e) h = let kept : p y ≡ true = sym (ap p e) ∙ h in rw kept (inl e)
  In-retain x (y ∷ xs) (inr i) h = elim (Bool-cases (p y)) [
    | inl keep ↦ rw keep (inr (In-retain x xs i h))
    | inr skip ↦ rw skip (In-retain x xs i h)
  ]

  retain_split :
      (x y : A) (xs : List A)
      → (In x (retain p xs) → In x xs × (p x ≡ true))
      → p y ≡ true
      → In x (y ∷ retain p xs)
      → In x (y ∷ xs) × (p x ≡ true)
  retain_split x y xs rest h (inl e) = (inl e, ap p e ∙ h)
  retain_split x y xs rest h (inr i) = let (j, k) = rest i in (inr j, k)

  pub retain-In : (x : A) (xs : List A) → In x (retain p xs) → In x xs × (p x ≡ true)
  retain-In x [] i = elim i [ ]
  retain-In x (y ∷ xs) i = elim (Bool-cases (p y)) [
    | inl keep ↦ retain_split x y xs (retain-In x xs) keep (rw keep at i)
    | inr skip ↦ let (j, h) = retain-In x xs (rw skip at i) in (inr j, h)
  ]

  pub all-In : (xs : List A) → all p xs ≡ true → (x : A) → In x xs → p x ≡ true
  all-In [] h x i = elim i [ ]
  all-In (y ∷ xs) h x (inl e) = ap p e ∙ ground arith
  all-In (y ∷ xs) h x (inr i) = all-In xs (ground arith) x i

  pub In-all : (xs : List A) → ((x : A) → In x xs → p x ≡ true) → all p xs ≡ true
  In-all [] h = refl
  In-all (y ∷ xs) h = ground (arith, h y (inl refl), In-all xs (λ x i. h x (inr i)))

  pub any-In : (xs : List A) → any p xs ≡ true → (x : A) × In x xs × (p x ≡ true)
  any-In [] h = cc
  any-In (y ∷ xs) h = elim (Bool-cases (p y)) [
    | inl here ↦ (y, inl refl, here)
    | inr later ↦ let (x, i, e) = any-In xs (ground arith) in (x, inr i, e)
  ]

  pub In-any : (x : A) (xs : List A) → In x xs → p x ≡ true → any p xs ≡ true
  In-any x [] i h = elim i [ ]
  In-any x (y ∷ xs) (inl e) h = let here : p y ≡ true = sym (ap p e) ∙ h in rw here
  In-any x (y ∷ xs) (inr i) h = ground (arith, In-any x xs i h)

pub All-In : {A : Type 0} (P : A → Type 0) (xs : List A) → All P xs → (x : A) → In x xs → P x
All-In P [] a x i = elim i [ ]
All-In P (y ∷ xs) a x (inl e) = rw e a.0
All-In P (y ∷ xs) a x (inr i) = All-In P xs a.1 x i
