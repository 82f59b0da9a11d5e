-- ===== src/Command/Dispatch.antt =====
-- Under which names the program is started, and what it does then.
use climate.Common.{
  Text, codes, text_eq, split, all, retain, not, ◌==◌, All, split_on-Lacks, Bool-cases, Option,
  none, some, List, [], ◌∷◌, ◌++◌, inl, inr, Bool, true, false, ℕ, ok, ◌≡◌, refl, ap, ◌∙◌, arith,
}
use climate.Config.Load.{is_allowed, is_valid_name}
use climate.Spec.Paths.{is_skipped}
use climate.Command.{
  Cli, run_app, hook, helper, hook_arg, helper_arg, localnet_arg, hook_args, helper_args, file_name,
  last, app_link, other_name, call_of, dispatch,
}

abbrev is_slash : ℕ → Bool
is_slash c = c == b'/'

-- The last field of a path is what stands behind its last slash.
split-path :
    (dir name : Text)
    → All (λ c. is_slash c ≡ false) name
    → (f : Text) × (fs : List Text) × (split b'/' (dir ++ b'/' ∷ name) ≡ f ∷ (fs ++ name ∷ []))
split-path [] name h = ([], [], ap (λ fs. [] ∷ fs) (split_on-Lacks is_slash name h))
split-path (c ∷ dir) name h =
    let (f, fs, e) = split-path dir name h in
    elim (Bool-cases (c == b'/')) [
      | inl here ↦ ([], f ∷ fs, rw (here, e) refl)
      | inr away ↦ (c ∷ f, fs, rw (away, e) refl)
    ]

last_later : (name x : Text) (xs : List Text) → last xs ≡ some name → last (x ∷ xs) ≡ some name
last_later name x [] h = cc
last_later name x (y ∷ xs) h = h

last-retain :
    (p : Text → Bool) (name : Text) (xs : List Text)
    → p name ≡ true
    → last (retain p (xs ++ name ∷ [])) ≡ some name
last-retain p name [] h = rw h refl
last-retain p name (x ∷ xs) h = elim (Bool-cases (p x)) [
  | inl keep ↦ rw keep (last_later name x (retain p (xs ++ name ∷ [])) (last-retain p name xs h))
  | inr skip ↦ rw skip (last-retain p name xs h)
]

is_allowed-slash : (c : ℕ) → is_allowed c ≡ true → is_slash c ≡ false
is_allowed-slash c h = ground arith

all_allowed-slash : (name : Text) → all is_allowed name ≡ true → All (λ c. is_slash c ≡ false) name
all_allowed-slash [] h = tt
all_allowed-slash (c ∷ name) h =
    (is_allowed-slash c (ground arith), all_allowed-slash name (ground arith))

-- A valid name is neither empty, nor `.`, nor `..`.
valid_parts :
    (name : Text)
    → is_valid_name name ≡ true
    → (is_skipped name ≡ false)
      × (text_eq name (codes "..") ≡ false)
      × All (λ c. is_slash c ≡ false) name
unfolding is_valid_name text_eq
valid_parts [] h = ground arith
valid_parts (c ∷ name) h = (ground arith, ground arith, all_allowed-slash (c ∷ name) (ground arith))

file_name-path :
    (dir name : Text) → is_valid_name name ≡ true → file_name (dir ++ b'/' ∷ name) ≡ some name
unfolding file_name
file_name-path dir name h =
    let (counts, parent, slashes) = valid_parts name h in
    let (f, fs, e) = split-path dir name slashes in
    let found : last (retain (λ f. not (is_skipped f)) (split b'/' (dir ++ b'/' ∷ name)))
        ≡ some name =
      ap (λ gs. last (retain (λ f. not (is_skipped f)) gs)) e
      ∙ last-retain (λ f. not (is_skipped f)) name (f ∷ fs) (rw counts refl) in
    rw (found, parent) refl

module _ (parse_args : List Text → Option Cli) where
  -- Started by the symlink of an app, in whatever directory, the program runs that app with the
  -- arguments as they are.
  pub dispatch-app_link :
      (dir app : Text) (args : List Text)
      → is_valid_name app ≡ true
      → text_eq app (codes "climate") ≡ false
      → dispatch parse_args ((dir ++ b'/' ∷ app) ∷ args) ≡ ok (run_app app args)
  unfolding dispatch app_link
  dispatch-app_link dir app args valid other =
      let alone : other_name (some app) ≡ some app = rw other refl in
      ap (call_of parse_args ((dir ++ b'/' ∷ app) ∷ args) args)
        (ap other_name (file_name-path dir app valid) ∙ alone)

  -- The program that the container's hook starts becomes the hook of that socket, and the one that the
  -- forwarder starts becomes the helper, with the local network if that was asked for: the program is
  -- called `climate`.
  pub dispatch-own_args :
      (dir socket : Text) (localnet : Bool)
      → (dispatch parse_args (hook_args socket) ≡ ok (hook socket))
        × (dispatch parse_args (helper_args (dir ++ b'/' ∷ codes "climate") localnet)
            ≡ ok (helper localnet))
  unfolding dispatch app_link hook_args helper_args hook_arg helper_arg localnet_arg is_valid_name
      text_eq file_name
  dispatch-own_args dir socket localnet = (refl, called localnet)
    where
      exe : Text
      exe = dir ++ b'/' ∷ codes "climate"

      named : app_link (some exe) ≡ none
      named = ap other_name (file_name-path dir (codes "climate") refl)

      called : (b : Bool) → dispatch parse_args (helper_args exe b) ≡ ok (helper b)
      called true =
          ap (call_of parse_args (helper_args exe true) (helper_arg ∷ localnet_arg ∷ [])) named
      called false = ap (call_of parse_args (helper_args exe false) (helper_arg ∷ [])) named
