-- ===== src/Common/Number.antt =====
-- The standard library's numbers as text: `from_str_radix`, `parse::<i64>`, `parse::<i32>` and
-- `to_string`, with the machine's bounds written out. `ℤ` is over the native numbers.
use climate.Common.Tests.{ltb, leb, ◌==◌, if◌then◌else◌, Bool-cases, ltb→lt, le→leb}
use climate.Common.Lists.{All}
use climate.Common.Strings.{Text, is_digit, is_lower, is_upper}
use Prim.Native.Nat.{ℕ, zero, suc, ◌+◌, ◌-◌, ◌*◌, ◌/◌, ◌%◌, ◌^◌, ◌≤◌, ◌<◌}
use mathlib.Core.Path.{◌≡◌, ◌∙◌, ap}
use mathlib.Core.Logic.{inl, inr}
use mathlib.Core.Bool.{Bool, true, false}
use mathlib.Core.Option.{Option, none, some}
use mathlib.Core.List.{[], ◌∷◌}
use native.Mathlib.Omega.{arith}

-- `negsuc n` is -(n + 1).
pub data ℤ : Type 0 where
  pos : ℕ → ℤ
  negsuc : ℕ → ℤ

abbrev pub pos_part : ℤ → ℕ
pos_part (pos n) = n
pos_part (negsuc n) = 0

abbrev pub neg_part : ℤ → ℕ
neg_part (pos n) = 0
neg_part (negsuc n) = suc n

infix 50 ◌≤ℤ◌
abbrev pub ◌≤ℤ◌ : ℤ → ℤ → Type 0
a ≤ℤ b = pos_part a + neg_part b ≤ pos_part b + neg_part a

abbrev pub leb_ℤ : ℤ → ℤ → Bool
leb_ℤ a b = leb (pos_part a + neg_part b) (pos_part b + neg_part a)

-- The value of a digit, as `char::to_digit` has it.
unfoldable pub to_digit : ℕ → ℕ → Option ℕ
to_digit radix c =
    let d =
      if is_digit c
      then c - b'0'
      else if is_lower c
      then c - b'a' + 10
      else if is_upper c
      then c - b'A' + 10
      else radix in
    if ltb d radix then some d else none

-- The number that the digits spell behind `acc`, with no bound.
unfoldable pub digits_from : ℕ → ℕ → Text → Option ℕ
unfolding to_digit
digits_from radix acc [] = some acc
digits_from radix acc (c ∷ s) = elim (to_digit radix c) [
  | none ↦ none
  | some d ↦ digits_from radix (acc * radix + d) s
]

unfoldable pub parse_digits : ℕ → Text → Option ℕ
unfolding digits_from
parse_digits radix [] = none
parse_digits radix (c ∷ s) = digits_from radix 0 (c ∷ s)

-- A number past the limit is the overflow error.
abbrev pub bounded : ℕ → Option ℕ → Option ℕ
bounded limit none = none
bounded limit (some n) = if leb n limit then some n else none

abbrev pub u16_max : ℕ
u16_max = 2 ^ 16 - 1

abbrev pub u32_max : ℕ
u32_max = 2 ^ 32 - 1

abbrev pub u128_max : ℕ
u128_max = 2 ^ 128 - 1

abbrev pub i64_max : ℕ
i64_max = 2 ^ 63 - 1

abbrev pub i32_max : ℕ
i32_max = 2 ^ 31 - 1

-- `from_str_radix` of an unsigned type: one `+` may stand in front.
unfoldable pub parse_unsigned : ℕ → ℕ → Text → Option ℕ
unfolding parse_digits
parse_unsigned radix limit [] = none
parse_unsigned radix limit (c ∷ s) =
    bounded limit (parse_digits radix (if c == b'+' then s else c ∷ s))

abbrev pub to_signed : Bool → Option ℕ → Option ℤ
to_signed _ none = none
to_signed false (some n) = some (pos n)
to_signed true (some zero) = some (pos 0)
to_signed true (some (suc n)) = some (negsuc n)

-- `parse` of a signed type, whose lowest value is `-(limit + 1)`.
unfoldable pub parse_signed : ℕ → Text → Option ℤ
unfolding parse_digits
parse_signed limit [] = none
parse_signed limit (c ∷ s) =
    if c == b'-'
    then to_signed true (bounded (limit + 1) (parse_digits 10 s))
    else to_signed false (bounded limit (parse_digits 10 (if c == b'+' then s else c ∷ s)))

-- `to_string`: the digits of `n`, most significant first. `n + 1` rounds are enough for `n`.
unfoldable pub show_fuel : ℕ → ℕ → Text → Text
show_fuel zero n out = out
show_fuel (suc f) n out =
    let more = show_fuel f (n / 10) ((b'0' + n % 10) ∷ out) in
    if ltb n 10 then (b'0' + n) ∷ out else more

unfoldable pub show_nat : ℕ → Text
unfolding show_fuel
show_nat n = show_fuel (suc n) n []

to_digit_ten : (d : ℕ) → d < 10 → to_digit 10 (b'0' + d) ≡ some d
unfolding to_digit
to_digit_ten d h = ground arith

digits_from-cons :
    (acc d : ℕ) (s : Text)
    → d < 10
    → digits_from 10 acc ((b'0' + d) ∷ s) ≡ digits_from 10 (acc * 10 + d) s
unfolding digits_from
digits_from-cons acc d s h = ground (arith, to_digit_ten d h)

-- Reading what is written goes on from the number, behind any digits that follow.
digits_from-show_fuel :
    (f n : ℕ) (out : Text) → n < f → digits_from 10 0 (show_fuel f n out) ≡ digits_from 10 n out
unfolding show_fuel
digits_from-show_fuel zero n out h = absurd (omega arith)
digits_from-show_fuel (suc f) n out h = elim (Bool-cases (ltb n 10)) [
  | inl small ↦
      rw small (
        digits_from-cons 0 n out (ltb→lt n 10 small) ∙ ap (λ m. digits_from 10 m out) (omega arith))
  | inr large ↦ rw large (
      digits_from-show_fuel f (n / 10) ((b'0' + n % 10) ∷ out) (ground arith)
      ∙ digits_from-cons (n / 10) (n % 10) out (omega arith)
      ∙ ap (λ m. digits_from 10 m out) (omega arith))
]

-- What is written starts with a digit.
show_fuel-head :
    (f n : ℕ) (out : Text)
    → n < f
    → (d : ℕ) × (s : Text) × (d < 10) × (show_fuel f n out ≡ (b'0' + d) ∷ s)
unfolding show_fuel
show_fuel-head zero n out h = absurd (omega arith)
show_fuel-head (suc f) n out h = elim (Bool-cases (ltb n 10)) [
  | inl small ↦ (n, out, ltb→lt n 10 small, rw small)
  | inr large ↦ rw large (show_fuel-head f (n / 10) ((b'0' + n % 10) ∷ out) (ground arith))
]

pub show_nat-head : (n : ℕ) → (d : ℕ) × (s : Text) × (d < 10) × (show_nat n ≡ (b'0' + d) ∷ s)
unfolding show_nat
show_nat-head n = show_fuel-head (suc n) n [] (omega arith)

pub digits_from-show_nat : (n : ℕ) → digits_from 10 0 (show_nat n) ≡ some n
unfolding show_nat digits_from
digits_from-show_nat n = digits_from-show_fuel (suc n) n [] (omega arith)

parse_signed_digit :
    (limit d : ℕ) (s : Text)
    → d < 10
    → parse_signed limit ((b'0' + d) ∷ s)
      ≡ to_signed false (bounded limit (digits_from 10 0 ((b'0' + d) ∷ s)))
unfolding parse_signed
parse_signed_digit limit d s h = ground arith

-- A number of the signed type is read back from its print.
pub parse_signed-show_nat :
    (limit n : ℕ) → n ≤ limit → parse_signed limit (show_nat n) ≡ some (pos n)
parse_signed-show_nat limit n h =
    let (d, s, small, e) = show_nat-head n in
    rw e (parse_signed_digit limit d s small ∙ rw (← e, digits_from-show_nat n, le→leb n limit h))

-- What a decimal print is made of.
pub show_fuel-All :
    (f n : ℕ) (out : Text)
    → n < f
    → All (λ c. is_digit c ≡ true) out
    → All (λ c. is_digit c ≡ true) (show_fuel f n out)
unfolding show_fuel
show_fuel-All zero n out h all = absurd (omega arith)
show_fuel-All (suc f) n out h all = elim (Bool-cases (ltb n 10)) [
  | inl small ↦ rw small (ground arith, all)
  | inr large ↦
      rw large (show_fuel-All f (n / 10) ((b'0' + n % 10) ∷ out) (ground arith) (ground arith, all))
]

pub show_nat-All : (n : ℕ) → All (λ c. is_digit c ≡ true) (show_nat n)
unfolding show_nat
show_nat-All n = show_fuel-All (suc n) n [] (omega arith) tt
