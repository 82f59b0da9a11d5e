-- ===== src/Localnet/Route/Prefix.antt =====
-- `same_prefix` in arithmetic: which addresses a network contains.
use Prim.Native.Nat.{bit_xor, bit_xor-bitwise, digits, differ}
use native.Mathlib.Nat.{le_refl, div-eq_of_lt, zero-div, pow-suc, div-div-eq-div-mul}
use climate.Common.{
  ltb, Bool-cases, inl, inr, ==_iff, true, ℕ, zero, suc, sym, ◌-◌, ◌/◌, ◌%◌, ◌^◌, ◌≤◌, ◌<◌, ◌≡◌,
  ◌↔◌, refl, arith, ap, ◌∙◌,
}
use climate.Localnet.Route.{same_prefix, shift_of}

differ_bits :
    (x y : ℕ)
    → x < 2
    → y < 2
    → (differ x y < 2) × (differ x y ≡ 0 → x ≡ y) × (x ≡ y → differ x y ≡ 0)
differ_bits zero zero hx hy = (omega arith, λ e. refl, λ e. refl)
differ_bits zero (suc y) hx hy = (hy, λ e. omega arith, λ e. omega arith)
differ_bits (suc x) zero hx hy = (hx, λ e. omega arith, λ e. omega arith)
differ_bits (suc zero) (suc zero) hx hy = (omega arith, λ e. refl, λ e. refl)
differ_bits (suc zero) (suc (suc y)) hx hy = absurd (omega arith)
differ_bits (suc (suc x)) (suc y) hx hy = absurd (omega arith)

-- The digits of `bit_xor`, on enough fuel. The lowest is dropped by a halving.
abbrev xor_digits : ℕ → ℕ → ℕ → ℕ
xor_digits = digits (λ y. y) differ

xor_digits_half : (n a b : ℕ) → xor_digits (suc n) (suc a) b / 2 ≡ xor_digits n (suc a / 2) (b / 2)
xor_digits_half n a b =
    let low = differ_bits (suc a % 2) (b % 2) (omega arith) (omega arith) in omega arith

xor_digits_zero : (n a b : ℕ) → a ≤ n → (xor_digits n a b ≡ 0) ↔ (a ≡ b)
xor_digits_zero zero zero b h = (λ e. omega arith, λ e. omega arith)
xor_digits_zero (suc n) zero b h = (λ e. omega arith, λ e. omega arith)
xor_digits_zero zero (suc a) b h = absurd (omega arith)
xor_digits_zero (suc n) (suc a) b h =
    let low = differ_bits (suc a % 2) (b % 2) (omega arith) (omega arith) in
    let rest = xor_digits_zero n (suc a / 2) (b / 2) (omega arith) in
    (
      λ e. omega (arith, low.1 (omega arith), rest.0 (omega arith)),
      λ e. omega (arith, low.2 (omega arith), rest.1 (omega arith)),
    )

half_then : (x k : ℕ) → x / 2 ^ suc k ≡ x / 2 / 2 ^ k
half_then x k = ap (λ m. x / m) (pow-suc 2 k ∙ omega arith) ∙ sym (div-div-eq-div-mul x 2 (2 ^ k))

xor_digits_shift : (k n a b : ℕ) → a ≤ n → (xor_digits n a b / 2 ^ k ≡ 0) ↔ (a / 2 ^ k ≡ b / 2 ^ k)
xor_digits_shift zero n a b h =
    let z = xor_digits_zero n a b h in
    (λ e. omega (arith, z.0 (omega arith)), λ e. omega (arith, z.1 (omega arith)))
xor_digits_shift (suc k) zero zero b h =
    (λ e. omega (arith, zero-div (2 ^ suc k)), λ e. omega (arith, zero-div (2 ^ suc k)))
xor_digits_shift (suc k) zero (suc a) b h = absurd (omega arith)
xor_digits_shift (suc k) (suc n) zero b h =
    (λ e. omega (arith, zero-div (2 ^ suc k)), λ e. omega (arith, zero-div (2 ^ suc k)))
xor_digits_shift (suc k) (suc n) (suc a) b h =
    rw
      (
        half_then (xor_digits (suc n) (suc a) b) k,
        half_then (suc a) k,
        half_then b k,
        xor_digits_half n a b,
      )
      (xor_digits_shift k n (suc a / 2) (b / 2) (omega arith))

bit_xor_shift : (a b k : ℕ) → (bit_xor a b / 2 ^ k ≡ 0) ↔ (a / 2 ^ k ≡ b / 2 ^ k)
bit_xor_shift a b k = rw (bit_xor-bitwise a b) (xor_digits_shift k a a b (le_refl a))

shift_of-sub :
    (width prefix : ℕ) → width ≤ 128 → prefix ≤ width → shift_of width prefix ≡ width - prefix
shift_of-sub width prefix hw hp = omega arith

-- Two addresses of a width up to 128 agree in their first `prefix` bits exactly if they are equal
-- once the other bits are shifted out; for a prefix of 0 they always do.
pub same_prefix_iff :
    (a b width prefix : ℕ)
    → width ≤ 128
    → prefix ≤ width
    → a < 2 ^ width
    → b < 2 ^ width
    → (same_prefix a b width prefix ≡ true) ↔ (a / 2 ^ (width - prefix) ≡ b / 2 ^ (width - prefix))
unfolding same_prefix
same_prefix_iff a b width prefix hw hp ha hb =
    rw (shift_of-sub width prefix hw hp) (elim (Bool-cases (ltb (width - prefix) 128)) [
      | inl small ↦
          let shifted = bit_xor_shift a b (width - prefix) in
          let zero_test = ==_iff (bit_xor a b / 2 ^ (width - prefix)) 0 in
          rw small (λ h. shifted.0 (zero_test.0 h), λ e. zero_test.1 (shifted.1 e))
      | inr whole ↦
          let all_out : width - prefix ≡ width = ground arith in
          rw (whole, all_out) (λ h. div-eq_of_lt ha ∙ sym (div-eq_of_lt hb), λ e. refl)
    ])
