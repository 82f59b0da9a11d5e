-- ===== src/Store/Names.antt =====
-- Digests as paths, and the names that refs are recorded under.
use climate.Common.{
  Text, codes, split_once, is_alphanumeric, is_empty, replace, all, ◌==◌, some, [], ◌∷◌, ◌++◌, Bool,
  true, false, ℕ, ok, ◌≡◌, refl, ap, sym, ◌∙◌, arith, Option-cases, inl, inr, All-append, Lacks,
  is_whitespace, starts_with,
}
use climate.Store.{Path2, is_clean, digest_path, marker_name}

split_once-eq_some :
    (b : ℕ) (s left right : Text) → split_once b s ≡ some (left, right) → left ++ (b ∷ right) ≡ s
split_once-eq_some b [] left right h = cc
split_once-eq_some b (c ∷ s) left right h = elim (Option-cases (split_once b s)) [
  | inl without ↦ ground arith
  | inr ((l, r), e) ↦ ground (arith, split_once-eq_some b s l r e)
]

-- A digest that is accepted is `<algo>:<hex>` of its path, and both parts are letters and digits: it
-- names no file outside the directory.
pub digest_path_sound :
    (digest algo hex : Text)
    → digest_path digest ≡ ok (algo, hex)
    → (algo ++ (b':' ∷ hex) ≡ digest) × (is_clean algo ≡ true) × (is_clean hex ≡ true)
unfolding digest_path
digest_path_sound digest algo hex h = elim (Option-cases (split_once b':' digest)) [
  | inl without ↦ ground arith
  | inr ((l, r), e) ↦ ground (arith, split_once-eq_some b':' digest l r e)
]

-- What is letters and digits holds no white space, and starts with no dot.
is_clean-Lacks : (s : Text) → all is_alphanumeric s ≡ true → Lacks is_whitespace s
is_clean-Lacks [] h = tt
is_clean-Lacks (c ∷ s) h = (ground arith, is_clean-Lacks s (ground arith))

Lacks-append : (p : ℕ → Bool) (s t : Text) → Lacks p s → Lacks p t → Lacks p (s ++ t)
Lacks-append p s t hs ht = All-append (λ c. p c ≡ false) s t hs ht

pub digest_path-Lacks :
    (digest : Text) (path : Path2)
    → digest_path digest ≡ ok path
    → Lacks is_whitespace digest × (is_empty digest ≡ false)
unfolding is_clean
digest_path-Lacks digest (algo, hex) h =
    let (e, clean_algo, clean_hex) = digest_path_sound digest algo hex h in
    rw (← e) (
      Lacks-append is_whitespace algo (b':' ∷ hex) (is_clean-Lacks algo (ground arith))
          (refl, is_clean-Lacks hex (ground arith)),
      nonempty algo,
    )
  where
    nonempty : (a : Text) → is_empty (a ++ b':' ∷ hex) ≡ false
    nonempty [] = refl
    nonempty (c ∷ a) = refl

pub is_clean-head : (s : Text) → is_clean s ≡ true → starts_with s (codes ".extract-") ≡ false
unfolding is_clean
is_clean-head [] h = refl
is_clean-head (c ∷ s) h = ground arith

-- A reference without `+` is found again in the name of its marker.
replace_back : (s : Text) → Lacks (λ c. c == b'+') s → replace b'+' b'/' (marker_name s) ≡ s
unfolding marker_name
replace_back [] h = refl
replace_back (c ∷ s) h = ground (arith, replace_back s h.1, h.0)

-- Two references that hold no `+` are recorded under different names.
pub marker_name-injective :
    (s t : Text)
    → Lacks (λ c. c == b'+') s
    → Lacks (λ c. c == b'+') t
    → marker_name s ≡ marker_name t
    → s ≡ t
marker_name-injective s t hs ht e =
    sym (replace_back s hs) ∙ ap (replace b'+' b'/') e ∙ replace_back t ht
