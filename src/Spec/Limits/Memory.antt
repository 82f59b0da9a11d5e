-- ===== src/Spec/Limits/Memory.antt =====
-- What `parse_memory` and `parse_size` make of a decimal number with a unit behind it.
use climate.Common.{
  codes, text_eq, List, ◌^◌, all, all-In, In, ap, ◌==◌, ==_iff, Option, none, Text, is_alphabetic,
  is_digit, to_lower, trim_end, drop-append, map, leb, if◌then◌else◌, some, [], ◌∷◌, ◌++◌, Bool,
  true, false, ℕ, ◌*◌, ◌≤◌, ◌≡◌, refl, All, ok, err, arith,
}
use climate.Common.Number.{pos, i64_max, parse_signed-show_nat, show_nat, show_nat-All}
use climate.Common.Error.{too_large}
use climate.Spec.Limits.{multiplier, parse_memory, scale}

-- The units in lower case, with the bytes that each stands for: the powers of 1024.
abbrev pub units : List (Text × ℕ)
units =
    ([], 1)
    ∷ (codes "b", 1)
    ∷ (codes "k", 2 ^ 10)
    ∷ (codes "kb", 2 ^ 10)
    ∷ (codes "kib", 2 ^ 10)
    ∷ (codes "m", 2 ^ 20)
    ∷ (codes "mb", 2 ^ 20)
    ∷ (codes "mib", 2 ^ 20)
    ∷ (codes "g", 2 ^ 30)
    ∷ (codes "gb", 2 ^ 30)
    ∷ (codes "gib", 2 ^ 30)
    ∷ (codes "t", 2 ^ 40)
    ∷ (codes "tb", 2 ^ 40)
    ∷ (codes "tib", 2 ^ 40)
    ∷ []

abbrev is_number : ℕ → Option ℕ → Bool
is_number m none = false
is_number m (some n) = n == m

abbrev is_multiplier : Text × ℕ → Bool
is_multiplier (unit, m) = is_number m (multiplier unit)

units-multiplier : all is_multiplier units ≡ true
unfolding multiplier text_eq
units-multiplier = refl

is_number-eq : (m : ℕ) (o : Option ℕ) → is_number m o ≡ true → o ≡ some m
is_number-eq m none h = cc
is_number-eq m (some n) h = ap some ((==_iff n m).0 h)

abbrev pub IsUnit : Text → Type 0
IsUnit = All (λ c. is_alphabetic c ≡ true)

trim_end-All : (p : ℕ → Bool) (s : Text) → All (λ c. p c ≡ true) s → trim_end p s ≡ []
trim_end-All p [] h = refl
trim_end-All p (c ∷ s) h = rw (trim_end-All p s h.1, h.0)

trim_end-append :
    (p : ℕ → Bool) (s unit : Text)
    → All (λ c. p c ≡ false) s
    → All (λ c. p c ≡ true) unit
    → trim_end p (s ++ unit) ≡ s
trim_end-append p [] unit hs hu = trim_end-All p unit hu
trim_end-append p (c ∷ s) unit hs hu = rw (trim_end-append p s unit hs.1 hu) (ground (arith, hs.0))

not_alphabetic : (s : Text) → All (λ c. is_digit c ≡ true) s → All (λ c. is_alphabetic c ≡ false) s
not_alphabetic [] h = tt
not_alphabetic (c ∷ s) h = (ground (arith, h.0), not_alphabetic s h.1)

trim_end-show_nat :
    (n : ℕ) (unit : Text) → IsUnit unit → trim_end is_alphabetic (show_nat n ++ unit) ≡ show_nat n
trim_end-show_nat n unit h =
    trim_end-append is_alphabetic (show_nat n) unit (not_alphabetic (show_nat n) (show_nat-All n)) h

parse_memory-scale :
    (key unit : Text) (n : ℕ)
    → n ≤ i64_max
    → IsUnit unit
    → parse_memory key (show_nat n ++ unit)
      ≡ scale key (show_nat n ++ unit) (map to_lower unit) (pos n)
unfolding parse_memory
parse_memory-scale key unit n h hu =
    rw (trim_end-show_nat n unit hu, parse_signed-show_nat i64_max n h, drop-append)

-- A decimal amount that fits `i64`, with nothing, `b`, or one of `k`, `m`, `g` and `t`, alone or with `b`
-- or `ib`, behind it, in upper or lower case, is read as the amount times 1, 2^10, 2^20, 2^30 or 2^40; if the product does not fit `i64` it is the error for a size that is
-- too large.
pub parse_memory-show_nat :
    (key unit : Text) (n m : ℕ)
    → n ≤ i64_max
    → IsUnit unit
    → In (map to_lower unit, m) units
    → parse_memory key (show_nat n ++ unit)
      ≡ (if leb (n * m) i64_max then ok (n * m) else err (too_large key (show_nat n ++ unit)))
parse_memory-show_nat key unit n m h hu hm = rw (parse_memory-scale key unit n h hu) (
    unfold scale in
    rw
      (is_number-eq m (multiplier (map to_lower unit))
        (all-In is_multiplier units units-multiplier (map to_lower unit, m) hm))
      (ground arith))
