-- ===== src/Forward/Loopback/Words.antt =====
-- `is_loopback` on an address as the kernel prints it: each 32-bit word as eight digits.
use climate.Common.{
  Text, length, length-append, take, drop, ℕ, zero, suc, ◌^◌, ◌<◌, [], ◌∷◌, ◌++◌, append-nil,
  append_assoc, List, ◌≡◌, refl, sym, ap, ◌∙◌, arith,
}
use climate.Common.Number.{u32_max}
use climate.Common.Hex.{hex, length-hex, parse_unsigned-hex}
use climate.Forward.Loopback.{word, is_v4, is_v6, is_loopback}

module _ {ℓ} {A : Type ℓ} where
  take-append : (n : ℕ) (xs ys : List A) → length xs ≡ n → take n (xs ++ ys) ≡ xs
  take-append zero [] ys h = refl
  take-append zero (x ∷ xs) ys h = absurd (omega arith)
  take-append (suc n) [] ys h = absurd (omega arith)
  take-append (suc n) (x ∷ xs) ys h = ap (λ l. x ∷ l) (take-append n xs ys (omega arith))

  drop-append_eq : (n : ℕ) (xs ys : List A) → length xs ≡ n → drop n (xs ++ ys) ≡ ys
  drop-append_eq zero [] ys h = refl
  drop-append_eq zero (x ∷ xs) ys h = absurd (omega arith)
  drop-append_eq (suc n) [] ys h = absurd (omega arith)
  drop-append_eq (suc n) (x ∷ xs) ys h = drop-append_eq n xs ys (omega arith)

-- The word that stands behind `n` other digits.
word_at :
    (n w : ℕ) (before behind : Text)
    → length before ≡ n
    → w < 2 ^ 32
    → word (before ++ (hex 8 w ++ behind)) n ≡ w
unfolding word
word_at n w before behind h fits = rw (
  drop-append_eq n before (hex 8 w ++ behind) h,
  take-append 8 (hex 8 w) behind (length-hex 8 w),
  parse_unsigned-hex 7 u32_max w fits (omega arith),
)

-- An IPv4 listener is reachable on loopback exactly if its address is the wildcard or starts with
-- 127, which is the lowest byte of the word.
pub is_loopback-hex : (w : ℕ) → w < 2 ^ 32 → is_loopback (hex 8 w) ≡ is_v4 w
unfolding is_loopback
is_loopback-hex w h =
    let first : word (hex 8 w) 0 ≡ w =
      ap (λ t. word t 0) (sym (append-nil (hex 8 w))) ∙ word_at 0 w [] [] refl h in
    rw (length-hex 8 w, first)

abbrev pub hex_words : ℕ → ℕ → ℕ → ℕ → Text
hex_words a b c d = hex 8 a ++ (hex 8 b ++ (hex 8 c ++ hex 8 d))

length-hex_words : (a b c d : ℕ) → length (hex_words a b c d) ≡ 32
length-hex_words a b c d = omega (
  arith,
  length-append (hex 8 a) (hex 8 b ++ (hex 8 c ++ hex 8 d)),
  length-append (hex 8 b) (hex 8 c ++ hex 8 d),
  length-append (hex 8 c) (hex 8 d),
  length-hex 8 a,
  length-hex 8 b,
  length-hex 8 c,
  length-hex 8 d,
)

-- An IPv6 listener is reachable on loopback exactly if its address is the wildcard, ::1, or an
-- IPv4 address mapped into IPv6 that is reachable itself.
pub is_loopback-hex_words :
    (a b c d : ℕ)
    → a < 2 ^ 32
    → b < 2 ^ 32
    → c < 2 ^ 32
    → d < 2 ^ 32
    → is_loopback (hex_words a b c d) ≡ is_v6 a b c d
unfolding is_loopback
is_loopback-hex_words a b c d ha hb hc hd =
    let wa = word_at 0 a [] (hex 8 b ++ (hex 8 c ++ hex 8 d)) refl ha in
    let wb = word_at 8 b (hex 8 a) (hex 8 c ++ hex 8 d) (length-hex 8 a) hb in
    let two = length-append (hex 8 a) (hex 8 b) in
    let wc : word (hex_words a b c d) 16 ≡ c =
      ap (λ t. word t 16) (sym (append_assoc (hex 8 a) (hex 8 b) (hex 8 c ++ hex 8 d)))
      ∙ word_at 16 c (hex 8 a ++ hex 8 b) (hex 8 d)
          (omega (arith, two, length-hex 8 a, length-hex 8 b)) hc in
    let wd : word (hex_words a b c d) 24 ≡ d =
      ap (λ t. word t 24)
        (sym (
          append_assoc (hex 8 a ++ hex 8 b) (hex 8 c) (hex 8 d ++ [])
          ∙ append_assoc (hex 8 a) (hex 8 b) (hex 8 c ++ (hex 8 d ++ []))
          ∙ simp append-nil))
      ∙ word_at 24 d ((hex 8 a ++ hex 8 b) ++ hex 8 c) []
          (omega (
            arith,
            two,
            length-append (hex 8 a ++ hex 8 b) (hex 8 c),
            length-hex 8 a,
            length-hex 8 b,
            length-hex 8 c,
          ))
          hd in
    ground (arith, length-hex_words a b c d, wa, wb, wc, wd)
