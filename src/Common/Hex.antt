-- ===== src/Common/Hex.antt =====
-- Hexadecimal print of a fixed width, as the kernel writes addresses and ports, and how it reads
-- back.
use climate.Common.{
  Text, ltb, ◌==◌, if◌then◌else◌, some, [], ◌∷◌, false, ℕ, zero, suc, ◌+◌, ◌*◌, ◌/◌, ◌%◌, ◌^◌, ◌≤◌,
  ◌<◌, ◌≡◌, refl, ◌∙◌, ap, arith, length, Lacks, IsField, is_whitespace, le→leb,
}
use climate.Common.Number.{digits_from, to_digit, parse_unsigned, bounded}
use native.Mathlib.Nat.{pow-suc}

unfoldable pub hex_digit : ℕ → ℕ
hex_digit d = if ltb d 10 then b'0' + d else 55 + d

-- The last `k` digits of `n` in front of `out`.
unfoldable pub hex_onto : ℕ → ℕ → Text → Text
unfolding hex_digit
hex_onto zero n out = out
hex_onto (suc k) n out = hex_onto k (n / 16) (hex_digit (n % 16) ∷ out)

unfoldable pub hex : ℕ → ℕ → Text
unfolding hex_onto
hex k n = hex_onto k n []

to_digit-hex_digit : (d : ℕ) → d < 16 → to_digit 16 (hex_digit d) ≡ some d
unfolding to_digit hex_digit
to_digit-hex_digit d h = ground arith

digits_from-hex_digit :
    (acc d : ℕ) (s : Text)
    → d < 16
    → digits_from 16 acc (hex_digit d ∷ s) ≡ digits_from 16 (acc * 16 + d) s
unfolding digits_from
digits_from-hex_digit acc d s h = ground (arith, to_digit-hex_digit d h)

digits_from-hex_onto :
    (k n : ℕ) (out : Text) → n < 16 ^ k → digits_from 16 0 (hex_onto k n out) ≡ digits_from 16 n out
unfolding hex_onto
digits_from-hex_onto zero n out h = ap (λ m. digits_from 16 m out) (omega arith)
digits_from-hex_onto (suc k) n out h =
    digits_from-hex_onto k (n / 16) (hex_digit (n % 16) ∷ out) (omega (arith, pow-suc 16 k))
    ∙ digits_from-hex_digit (n / 16) (n % 16) out (omega arith)
    ∙ ap (λ m. digits_from 16 m out) (omega arith)

pub length-hex_onto : (k n : ℕ) (out : Text) → length (hex_onto k n out) ≡ k + length out
unfolding hex_onto
length-hex_onto zero n out = omega arith
length-hex_onto (suc k) n out = omega (arith, length-hex_onto k (n / 16) (hex_digit (n % 16) ∷ out))

pub length-hex : (k n : ℕ) → length (hex k n) ≡ k
unfolding hex
length-hex k n = omega (arith, length-hex_onto k n [])

-- The first digit is no `+`.
head-hex_onto :
    (k n : ℕ) (out : Text)
    → (d : ℕ) × (s : Text) × (hex_onto (suc k) n out ≡ hex_digit d ∷ s) × (d < 16)
unfolding hex_onto
head-hex_onto zero n out = (n % 16, out, refl, omega arith)
head-hex_onto (suc k) n out = head-hex_onto k (n / 16) (hex_digit (n % 16) ∷ out)

hex_digit-ne-plus : (d : ℕ) → d < 16 → (hex_digit d == b'+') ≡ false
unfolding hex_digit
hex_digit-ne-plus d h = ground arith

parse_unsigned_unsigned :
    (limit c : ℕ) (s : Text)
    → (c == b'+') ≡ false
    → parse_unsigned 16 limit (c ∷ s) ≡ bounded limit (digits_from 16 0 (c ∷ s))
unfolding parse_unsigned
parse_unsigned_unsigned limit c s h = rw h

-- A number that fits the width and the type is read back from its print.
pub parse_unsigned-hex :
    (k limit n : ℕ) → n < 16 ^ suc k → n ≤ limit → parse_unsigned 16 limit (hex (suc k) n) ≡ some n
unfolding hex
parse_unsigned-hex k limit n h fits =
    let (d, s, e, small) = head-hex_onto k n [] in
    rw e (
      parse_unsigned_unsigned limit (hex_digit d) s (hex_digit-ne-plus d small)
      ∙ rw (← e, digits_from-hex_onto (suc k) n [] h)
          (unfold digits_from in rw (le→leb n limit fits)))

hex_digit-Lacks : (d : ℕ) → d < 16 → is_whitespace (hex_digit d) ≡ false
unfolding hex_digit
hex_digit-Lacks d h = ground arith

hex_onto-Lacks :
    (k n : ℕ) (out : Text) → Lacks is_whitespace out → Lacks is_whitespace (hex_onto k n out)
unfolding hex_onto
hex_onto-Lacks zero n out h = h
hex_onto-Lacks (suc k) n out h =
    hex_onto-Lacks k (n / 16) (hex_digit (n % 16) ∷ out) (hex_digit-Lacks (n % 16) (omega arith), h)

-- A printed number is a field of a table.
pub hex-IsField : (k n : ℕ) → IsField (hex (suc k) n)
unfolding hex
hex-IsField k n =
    let (d, s, e, small) = head-hex_onto k n [] in (rw e refl, hex_onto-Lacks (suc k) n [] tt)
