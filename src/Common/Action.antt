-- ===== src/Common/Action.antt =====
-- Work on a state that may fail: what was written before a failure stays written. And what a piece of
-- work promises, of the state that it leaves when it goes well and of the one that it leaves when it
-- fails.
use climate.Common.{List, [], ◌∷◌, Bool, true, false, if◌then◌else◌, Result, ok, err, ◌≡◌, refl}
use climate.Common.Error.{Error}

abbrev pub Action : Type 0 → Type 0 → Type 0
Action S A = S → Result Error A × S

module _ {S A : Type 0} where
  abbrev pub pure : A → Action S A
  pure a s = (ok a, s)

  -- What only reads the store, and what reads nothing.
  abbrev pub asks : (S → Result Error A) → Action S A
  asks f s = (f s, s)

  abbrev pub lift : Result Error A → Action S A
  lift r s = (r, s)

  -- What runs whichever way the first ends.
  abbrev pub finally : Action S A → (S → S) → Action S A
  finally m f s = let (r, s') = m s in (r, f s')

abbrev pub modify : {S : Type 0} → (S → S) → Action S (Unit {0})
modify f s = (ok tt, f s)

-- A change that is made, or refused.
abbrev stored : {S : Type 0} → S → Result Error S → Result Error (Unit {0}) × S
stored s (ok s') = (ok tt, s')
stored s (err e) = (err e, s)

abbrev pub change : {S : Type 0} → (S → Result Error S) → Action S (Unit {0})
change f s = stored s (f s)

infixl 5 ◌>>=◌ ◌>>◌
abbrev and_then : {S A B : Type 0} → Result Error A × S → (A → Action S B) → Result Error B × S
and_then (ok a, s) next = next a s
and_then (err e, s) next = (err e, s)

abbrev pub ◌>>=◌ : {S A B : Type 0} → Action S A → (A → Action S B) → Action S B
◌>>=◌ m next s = and_then (m s) next

abbrev pub ◌>>◌ : {S A B : Type 0} → Action S A → Action S B → Action S B
m >> next = m >>= λ done. next

-- What goes on with the error in its hand.
abbrev pub attempt : {S A : Type 0} → Action S A → Action S (Result Error A)
attempt m s = let (r, s') = m s in (ok r, s')

-- A `for` loop, which an error leaves.
unfoldable pub each : {S A : Type 0} → (A → Action S (Unit {0})) → List A → Action S (Unit {0})
each f [] = pure tt
each f (x ∷ xs) = f x >> each f xs

-- `Q` of a good end, and `E` of a failure.
unfoldable pub Ends : {S A : Type 0} → (A → S → Type 0) → (S → Type 0) → Result Error A × S → Type 0
Ends Q E (ok a, s) = Q a s
Ends Q E (err e, s) = E s

pub record Promises {S A : Type 0} (P : S → Type 0) (m : Action S A) (Q : A → S → Type 0)
    (E : S → Type 0) : Type 0 where
  pub ends : (s : S) → P s → Ends Q E (m s)

module _ {S A : Type 0} where
  pub pure-Promises :
      {P : S → Type 0} (Q : A → S → Type 0) (E : S → Type 0) (a : A)
      → ((s : S) → P s → Q a s)
      → Promises P (pure a) Q E
  unfolding Ends
  pure-Promises Q E a h = record { ends = λ s p. h s p }

  pub asks-Promises :
      {P E : S → Type 0} (Q : A → S → Type 0) (f : S → Result Error A)
      → ((s : S) → P s → E s)
      → ((s : S) (a : A) → P s → f s ≡ ok a → Q a s)
      → Promises P (asks f) Q E
  unfolding Ends
  asks-Promises {P = P} {E = E} Q f hurt good = record { ends = λ s p. go s p (f s) refl }
    where
      go : (s : S) → P s → (r : Result Error A) → f s ≡ r → Ends Q E (r, s)
      go s p (ok a) e = good s a p e
      go s p (err x) e = hurt s p

  pub lift-Promises :
      {P E : S → Type 0} (Q : A → S → Type 0) (r : Result Error A)
      → ((s : S) → P s → E s)
      → ((s : S) (a : A) → P s → r ≡ ok a → Q a s)
      → Promises P (lift r) Q E
  lift-Promises Q r hurt good = asks-Promises Q (λ s. r) hurt good

  pub Promises-weaken :
      {P : S → Type 0} {Q Q' : A → S → Type 0} {E E' : S → Type 0} (m : Action S A)
      → Promises P m Q E
      → ((s : S) (a : A) → Q a s → Q' a s)
      → ((s : S) → E s → E' s)
      → Promises P m Q' E'
  unfolding Ends
  Promises-weaken {Q = Q} {Q' = Q'} {E = E} {E' = E'} m h good hurt = record {
    ends = λ s p. go (m s) (h.ends s p);
  }
    where
      go : (out : Result Error A × S) → Ends Q E out → Ends Q' E' out
      go (ok a, s') q = good s' a q
      go (err x, s') e = hurt s' e

pub bind-Promises :
    {S A B : Type 0} {P E : S → Type 0} (Q : A → S → Type 0) {R : B → S → Type 0} (m : Action S A)
    (next : A → Action S B)
    → Promises P m Q E
    → ((a : A) → Promises (Q a) (next a) R E)
    → Promises P (m >>= next) R E
unfolding Ends
bind-Promises {S = S} {A = A} {B = B} {E = E} Q {R = R} m next first rest = record {
  ends = λ s p. go (m s) (first.ends s p);
}
  where
    go : (out : Result Error A × S) → Ends Q E out → Ends R E (and_then out next)
    go (ok a, s') q = (rest a).ends s' q
    go (err x, s') e = e

module _ {S : Type 0} {P E : S → Type 0} where
  pub modify-Promises :
      (Q : Unit {0} → S → Type 0) (f : S → S)
      → ((s : S) → P s → Q tt (f s))
      → Promises P (modify f) Q E
  unfolding Ends
  modify-Promises Q f h = record { ends = λ s p. h s p }

  pub change-Promises :
      (Q : Unit {0} → S → Type 0) (f : S → Result Error S)
      → ((s : S) → P s → E s)
      → ((s s' : S) → P s → f s ≡ ok s' → Q tt s')
      → Promises P (change f) Q E
  unfolding Ends
  change-Promises Q f hurt good = record { ends = λ s p. go s p (f s) refl }
    where
      go : (s : S) → P s → (r : Result Error S) → f s ≡ r → Ends Q E (stored s r)
      go s p (ok s') e = good s s' p e
      go s p (err x) e = hurt s p

  pub finally-Promises :
      {A : Type 0} {Q Q' : A → S → Type 0} {E' : S → Type 0} (m : Action S A) (f : S → S)
      → Promises P m Q E
      → ((s : S) (a : A) → Q a s → Q' a (f s))
      → ((s : S) → E s → E' (f s))
      → Promises P (finally m f) Q' E'
  unfolding Ends
  finally-Promises {A = A} {Q = Q} {Q' = Q'} {E' = E'} m f h good hurt = record {
    ends = λ s p. go (m s) (h.ends s p);
  }
    where
      go : (out : Result Error A × S) → Ends Q E out → Ends Q' E' (out.0, f out.1)
      go (ok a, s') q = good s' a q
      go (err x, s') e = hurt s' e

-- What holds with the elements that are still to come.
pub each-Promises :
    {S A : Type 0} {E : S → Type 0} (I : List A → S → Type 0) (f : A → Action S (Unit {0}))
    → ((x : A) (xs : List A) → Promises (I (x ∷ xs)) (f x) (λ done s. I xs s) E)
    → (xs : List A) → Promises (I xs) (each f xs) (λ done s. I [] s) E
unfolding each
each-Promises I f step [] = pure-Promises (λ done s. I [] s) _ tt (λ s p. p)
each-Promises I f step (x ∷ xs) =
    bind-Promises (λ done s. I xs s) (f x) (λ done. each f xs) (step x xs)
      (λ done. each-Promises I f step xs)

pub when-Promises :
    {S : Type 0} {P E : S → Type 0} (Q : Unit {0} → S → Type 0) (b : Bool) (m : Action S (Unit {0}))
    → (b ≡ false → (s : S) → P s → Q tt s)
    → (b ≡ true → Promises P m Q E)
    → Promises P (if b then m else pure tt) Q E
when-Promises Q true m skip h = h refl
when-Promises Q false m skip h = pure-Promises Q _ tt (skip refl)
