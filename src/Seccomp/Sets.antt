-- ===== src/Seccomp/Sets.antt =====
-- The names of syscalls as a set: who is a member, and their order.
use climate.Common.{
  Text, text_in, text_eq, text_eq_iff, text_eq_refl, remove_text, retain, ◌==◌, not, ◌&&◌, ◌||◌,
  List, [], ◌∷◌, Bool, true, false, ◌≡◌, refl, sym, ap, ◌∙◌, arith, Bool-cases, inl, inr, All,
}
use climate.Seccomp.{text_less, insert_name, extend}

pub text_in-insert_name :
    (n m : Text) (set : List Text) → text_in (insert_name m set) n ≡ (text_eq m n || text_in set n)
unfolding insert_name
text_in-insert_name n m [] = refl
text_in-insert_name n m (u ∷ set) = elim (Bool-cases (text_eq m u)) [
  | inl same ↦ let e : m ≡ u = (text_eq_iff m u).0 same in rw same (rw e (ground arith))
  | inr other ↦ elim (Bool-cases (text_less m u)) [
    | inl less ↦ ground arith
    | inr more ↦ ground (arith, text_in-insert_name n m set)
  ]
]

pub text_in-extend :
    (n : Text) (names set : List Text)
    → text_in (extend names set) n ≡ (text_in names n || text_in set n)
unfolding extend
text_in-extend n [] set = refl
text_in-extend n (m ∷ names) set =
    ground (arith, text_in-extend n names (insert_name m set), text_in-insert_name n m set)

pub text_eq_comm : (s t : Text) → text_eq s t ≡ text_eq t s
unfolding text_eq
text_eq_comm [] [] = refl
text_eq_comm [] (d ∷ t) = refl
text_eq_comm (c ∷ s) [] = refl
text_eq_comm (c ∷ s) (d ∷ t) = ground (arith, text_eq_comm s t)

text_eq-apart : (u n m : Text) → text_eq u n ≡ true → text_eq u m ≡ false → text_eq m n ≡ false
text_eq-apart u n m here other =
    let e : u ≡ n = (text_eq_iff u n).0 here in
    text_eq_comm m n ∙ (sym (ap (λ x. text_eq x m) e) ∙ other)

pub text_in-remove_text :
    (n m : Text) (set : List Text)
    → text_in (remove_text m set) n ≡ (not (text_eq m n) && text_in set n)
text_in-remove_text n m [] = ground arith
text_in-remove_text n m (u ∷ set) = elim (Bool-cases (text_eq u m)) [
  | inl same ↦
      let e : u ≡ m = (text_eq_iff u m).0 same in
      rw e (ground (arith, text_in-remove_text n m set, text_eq_refl m))
  | inr other ↦ elim (Bool-cases (text_eq u n)) [
    | inl here ↦ ground (arith, text_in-remove_text n m set, text_eq-apart u n m here other)
    | inr away ↦ ground (arith, text_in-remove_text n m set)
  ]
]

-- The names are in the order of `str`, and none stands twice.
pub IsAscending : List Text → Type 0
IsAscending [] = Unit
IsAscending (n ∷ ns) = All (λ m. text_less n m ≡ true) ns × IsAscending ns

pub IsAscending-nil : IsAscending []
unfolding IsAscending
IsAscending-nil = tt

text_less_trans :
    (s t u : Text) → text_less s t ≡ true → text_less t u ≡ true → text_less s u ≡ true
unfolding text_less
text_less_trans [] [] u h k = cc
text_less_trans [] (d ∷ t) [] h k = cc
text_less_trans [] (d ∷ t) (e ∷ u) h k = refl
text_less_trans (c ∷ s) [] u h k = cc
text_less_trans (c ∷ s) (d ∷ t) [] h k = cc
text_less_trans (c ∷ s) (d ∷ t) (e ∷ u) h k = elim (Bool-cases (c == d)) [
  | inl cd ↦ elim (Bool-cases (d == e)) [
    | inl de ↦ ground (arith, text_less_trans s t u)
    | inr apart ↦ ground arith
  ]
  | inr apart ↦ elim (Bool-cases (d == e)) [ inl de ↦ ground arith | inr far ↦ ground arith ]
]

text_less_total : (s t : Text) → text_eq s t ≡ false → text_less s t ≡ false → text_less t s ≡ true
unfolding text_eq text_less
text_less_total [] [] h k = cc
text_less_total [] (d ∷ t) h k = cc
text_less_total (c ∷ s) [] h k = refl
text_less_total (c ∷ s) (d ∷ t) h k = elim (Bool-cases (c == d)) [
  | inl same ↦ ground (arith, text_less_total s t)
  | inr apart ↦ ground arith
]

All-insert_name :
    (n m : Text) (set : List Text)
    → text_less n m ≡ true
    → All (λ u. text_less n u ≡ true) set
    → All (λ u. text_less n u ≡ true) (insert_name m set)
unfolding insert_name
All-insert_name n m [] h a = (h, tt)
All-insert_name n m (u ∷ set) h a = elim (Bool-cases (text_eq m u)) [
  | inl same ↦ rw same a
  | inr other ↦ elim (Bool-cases (text_less m u)) [
    | inl less ↦ rw other (rw less (h, a))
    | inr more ↦ rw other (rw more (a.0, All-insert_name n m set h a.1))
  ]
]

All-text_less :
    (n m : Text) (set : List Text)
    → text_less n m ≡ true
    → All (λ u. text_less m u ≡ true) set
    → All (λ u. text_less n u ≡ true) set
All-text_less n m [] h a = tt
All-text_less n m (u ∷ set) h a = (text_less_trans n m u h a.0, All-text_less n m set h a.1)

pub insert_name-IsAscending :
    (n : Text) (set : List Text) → IsAscending set → IsAscending (insert_name n set)
unfolding insert_name IsAscending
insert_name-IsAscending n [] a = (tt, tt)
insert_name-IsAscending n (m ∷ set) a = elim (Bool-cases (text_eq n m)) [
  | inl same ↦ rw same a
  | inr other ↦ elim (Bool-cases (text_less n m)) [
    | inl less ↦ rw other (rw less ((less, All-text_less n m set less a.0), a))
    | inr more ↦ rw other (
        rw more (
          All-insert_name m n set (text_less_total n m other more) a.0,
          insert_name-IsAscending n set a.1,
        ))
  ]
]

pub extend-IsAscending : (names set : List Text) → IsAscending set → IsAscending (extend names set)
unfolding extend
extend-IsAscending [] set a = a
extend-IsAscending (n ∷ names) set a =
    extend-IsAscending names (insert_name n set) (insert_name-IsAscending n set a)

All-retain :
    (P : Text → Type 0) (p : Text → Bool) (set : List Text) → All P set → All P (retain p set)
All-retain P p [] a = tt
All-retain P p (u ∷ set) a = elim (Bool-cases (p u)) [
  | inl keep ↦ rw keep (a.0, All-retain P p set a.1)
  | inr skip ↦ rw skip (All-retain P p set a.1)
]

pub retain-IsAscending :
    (p : Text → Bool) (set : List Text) → IsAscending set → IsAscending (retain p set)
unfolding IsAscending
retain-IsAscending p [] a = tt
retain-IsAscending p (u ∷ set) a = elim (Bool-cases (p u)) [
  | inl keep ↦
      rw keep (All-retain (λ m. text_less u m ≡ true) p set a.0, retain-IsAscending p set a.1)
  | inr skip ↦ rw skip (retain-IsAscending p set a.1)
]
