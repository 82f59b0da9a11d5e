-- ===== src/Common/Results.antt =====
-- `anyhow::Result`, with the error as a value. An error is named after the message of the
-- outermost context that the source gives it, and carries the values that the message shows.
use mathlib.Core.Path.{◌≡◌, refl, ap}
use mathlib.Core.Bool.{Bool, true, false}
use mathlib.Core.Option.{Option, none, some}
use mathlib.Core.Logic.{◌⊎◌, inl, inr}

-- Over the type `E` of errors.
pub data Result {α ε} (E : Type ε) (A : Type α) : Type (α ⊔ ε) where
  ok : A → Result E A
  err : E → Result E A

-- `Option::context`.
abbrev pub context {ℓ κ} : {E : Type κ} {A : Type ℓ} → Option A → E → Result E A
context none e = err e
context (some a) e = ok a

infixl 5 ◌>>◌ ◌>>=◌
-- The operator `?`, with what is done next as a function.
abbrev pub ◌>>=◌ {α β ε} :
    {A : Type α} {B : Type β} {E : Type ε} → Result E A → (A → Result E B) → Result E B
err problem >>= next = err problem
ok value >>= next = next value

-- `Option::map(f).transpose()`.
abbrev pub traverse {ℓ κ μ} :
    {E : Type μ} {A : Type ℓ} {B : Type κ} → (A → Result E B) → Option A → Result E (Option B)
traverse f none = ok none
traverse f (some a) = f a >>= λ b. ok (some b)

-- `?` on a call that is made for its check alone.
abbrev pub ◌>>◌ {β ε} : {B : Type β} {E : Type ε} → Result E (Unit {0}) → Result E B → Result E B
first >> second = first >>= λ done. second

-- `bail!` unless the test holds.
abbrev pub guard {ε} : {E : Type ε} → Bool → E → Result E (Unit {0})
guard false problem = err problem
guard true problem = ok tt

-- What a step with `?` gave and what followed, if all went well.
pub >>=-eq-ok {α β ε} :
    {A : Type α} {B : Type β} {E : Type ε} (first : Result E A) (next : A → Result E B) {out : B}
    → (first >>= next) ≡ ok out
    → (value : A) × (first ≡ ok value) × (next value ≡ ok out)
>>=-eq-ok (err problem) next went = cc
>>=-eq-ok (ok value) next went = (value, refl, went)

-- Inversion of two steps whose values are put together, and of four.
pub two_steps-eq-ok {α β γ ε} :
    {E : Type ε} {A : Type α} {B : Type β} {C : Type γ} (a : Result E A) (b : Result E B)
    (k : A → B → C) {r : C}
    → (a >>= λ x. b >>= λ y. ok (k x y)) ≡ ok r
    → (x : A) × (y : B) × (a ≡ ok x) × (b ≡ ok y) × (r ≡ k x y)
two_steps-eq-ok (ok x) (ok y) k h = (x, y, refl, refl, cc)
two_steps-eq-ok (ok x) (err e) k h = cc
two_steps-eq-ok (err e) b k h = cc

pub four_steps-eq-ok {ℓ κ μ ν ρ ε} :
    {E : Type ε} {A : Type ℓ} {B : Type κ} {C : Type μ} {D : Type ν} {R : Type ρ} (a : Result E A)
    (b : Result E B) (c : Result E C) (d : Result E D) (k : A → B → C → D → R) {r : R}
    → (a >>= λ x. b >>= λ y. c >>= λ z. d >>= λ w. ok (k x y z w)) ≡ ok r
    → (x : A) × (y : B) × (z : C) × (w : D) × (a ≡ ok x)
      × (b ≡ ok y)
      × (c ≡ ok z)
      × (d ≡ ok w)
      × (r ≡ k x y z w)
four_steps-eq-ok (ok x) (ok y) (ok z) (ok w) k h = (x, y, z, w, refl, refl, refl, refl, cc)
four_steps-eq-ok (ok x) (ok y) (ok z) (err e) k h = cc
four_steps-eq-ok (ok x) (ok y) (err e) d k h = cc
four_steps-eq-ok (ok x) (err e) c d k h = cc
four_steps-eq-ok (err e) b c d k h = cc

pub Result-cases {ℓ κ} :
    {E : Type κ} {A : Type ℓ} (r : Result E A) → ((a : A) × (r ≡ ok a)) ⊎ ((e : E) × (r ≡ err e))
Result-cases (ok a) = inl (a, refl)
Result-cases (err e) = inr (e, refl)

pub context-eq-ok {ℓ κ} :
    {E : Type κ} {A : Type ℓ} (o : Option A) (e : E) {a : A} → context o e ≡ ok a → o ≡ some a
context-eq-ok none e h = cc
context-eq-ok (some b) e h = ap some cc
