-- ===== src/Config/Load/Checked.antt =====
-- What holds of every definition that has been loaded.
use climate.Common.{
  ◌≢◌, ◌⊎◌, starts_with, codes, ℕ, ◌≤◌, all, all-In, In-append_left, In-append_right, ap, ◌∙◌,
  arith, Text, text_eq, text_eq_iff, is_empty, not, Bool-cases, inl, inr, Option, none, some, List,
  [], ◌∷◌, Bool, true, false, Result, ok, ◌>>◌, >>=-eq-ok, guard, context, ◌≡◌, refl, In,
}
use climate.Common.Error.{
  unknown_syscall, Error, invalid_app_name, unknown_app, not_parsed, name_mismatch,
  empty_description, empty_license,
}
use climate.Config.{AppConfig}
use climate.Config.Merge.{Table}
use climate.Config.Load.{
  Files, Toml, search_dirs, is_valid_name, validate_app_name, place_of, find_place, read,
  read_override, check_syscall_names, check_names, is_allowed, check_config, with_override,
  load_with_raw,
}

-- An ASCII letter or digit, or one of `+`, `.`, `_` and `-`: no slash, above all.
abbrev pub IsPlain : ℕ → Type 0
IsPlain c =
    ((b'A' ≤ c) × (c ≤ b'Z'))
    ⊎ (((b'a' ≤ c) × (c ≤ b'z'))
        ⊎ (((b'0' ≤ c) × (c ≤ b'9')) ⊎ ((c ≡ b'+') ⊎ ((c ≡ b'.') ⊎ ((c ≡ b'_') ⊎ (c ≡ b'-'))))))

-- The name is of allowed characters and the definition's own, the required fields are there, the syscalls that it names
-- exist, and its file stands in a directory that is searched.
pub record IsLoaded {V F K : Type 0} (toml : Toml V F K) (files : Files) (name : Text)
    (config : AppConfig F K) : Type 0 where
  pub nonempty : name ≢ []
  pub visible : starts_with name (codes ".") ≡ false
  pub plain : (c : ℕ) → In c name → IsPlain c
  pub named : config.app.name ≡ name
  pub described : is_empty config.app.description ≡ false
  pub licensed : is_empty config.app.license ≡ false
  pub allows : (n : Text) → In n config.run.seccomp_allow → toml.is_syscall n ≡ true
  pub denies : (n : Text) → In n config.run.seccomp_deny → toml.is_syscall n ≡ true
  pub found : (dir : Text) × In dir (search_dirs files) × (files.is_file (place_of name dir) ≡ true)

guard-ok :
    (b : Bool) (e : Error) (k : Result Error (Unit {0}))
    → (guard b e >> k) ≡ ok tt
    → (b ≡ true) × (k ≡ ok tt)
guard-ok true e k h = (refl, h)
guard-ok false e k h = cc

guard-alone : (b : Bool) (e : Error) → guard b e ≡ ok tt → b ≡ true
guard-alone true e h = refl
guard-alone false e h = cc

not-false : (b : Bool) → not b ≡ true → b ≡ false
not-false true h = cc
not-false false h = refl

is_allowed-IsPlain : (c : ℕ) → is_allowed c ≡ true → IsPlain c
is_allowed-IsPlain c h = ground arith

nonempty_name : (name : Text) → name ≡ [] → is_valid_name name ≡ true → ⊥
unfolding is_valid_name
nonempty_name [] e h = cc
nonempty_name (c ∷ name) e h = cc

visible_name : (name : Text) → is_valid_name name ≡ true → starts_with name (codes ".") ≡ false
unfolding is_valid_name
visible_name name h = ground arith

allowed_name : (name : Text) → is_valid_name name ≡ true → all is_allowed name ≡ true
unfolding is_valid_name
allowed_name name h = ground arith

check_names-In :
    (is_syscall : Text → Bool) (names : List Text)
    → check_names is_syscall names ≡ ok tt
    → (n : Text) → In n names
    → is_syscall n ≡ true
unfolding check_names
check_names-In is_syscall [] h n i = elim i [ ]
check_names-In is_syscall (m ∷ names) h n (inl e) =
    ap is_syscall e ∙ (guard-ok (is_syscall m) (unknown_syscall m) _ h).0
check_names-In is_syscall (m ∷ names) h n (inr i) =
    check_names-In is_syscall names (guard-ok (is_syscall m) (unknown_syscall m) _ h).1 n i

find_place-In :
    (is_file : Text → Bool) (name path : Text) (dirs : List Text)
    → find_place is_file name dirs ≡ some path
    → (dir : Text) × In dir dirs × (is_file (place_of name dir) ≡ true)
unfolding find_place
find_place-In is_file name path [] h = cc
find_place-In is_file name path (dir ∷ dirs) h = elim (Bool-cases (is_file (place_of name dir))) [
  | inl here ↦ (dir, inl refl, here)
  | inr missing ↦
      let (found, i, there) = find_place-In is_file name path dirs (rw missing at h) in
      (found, inr i, there)
]

context-some : {A : Type 0} (o : Option A) (e : Error) (a : A) → context o e ≡ ok a → o ≡ some a
context-some none e a h = cc
context-some (some b) e a h = cc

module _ {V F K : Type 0} (toml : Toml V F K) (files : Files) (name : Text) where
  read-found :
      (file : Text × Text)
      → read files name ≡ ok file
      → (is_valid_name name ≡ true)
        × ((dir : Text) × In dir (search_dirs files) × (files.is_file (place_of name dir) ≡ true))
  unfolding read validate_app_name
  read-found file h =
      let (done, valid, h1) = >>=-eq-ok (validate_app_name name) _ h in
      let (path, found, h2) =
        >>=-eq-ok (context (find_place files.is_file name (search_dirs files)) (unknown_app name)) _
          h1 in
      (
        guard-alone (is_valid_name name) (invalid_app_name name) valid,
        find_place-In files.is_file name path (search_dirs files) (
            context-some (find_place files.is_file name (search_dirs files)) (unknown_app name) path
              found),
      )

  -- A definition that is loaded has a name of ASCII letters, digits, `+`, `.`, `_` and `-`, which is not
  -- empty and does not begin with a dot, and which is the one that it states itself, a description
  -- and a license, allows and denies only syscalls that exist, and has its file in a directory that is searched.
  pub load_with_raw-IsLoaded :
      (config : AppConfig F K) (raw : Table V)
      → load_with_raw toml files name ≡ ok (config, raw)
      → IsLoaded toml files name config
  unfolding load_with_raw check_config check_syscall_names
  load_with_raw-IsLoaded config raw h =
      let (file, is_read, h1) = >>=-eq-ok (read files name) _ h in
      let (table, parsed, h2) =
        >>=-eq-ok (context (toml.parse_table file.1) (not_parsed file.0)) _ h1 in
      let (over, is_over, h3) = >>=-eq-ok (read_override files name) _ h2 in
      let (loaded, made, h4) = >>=-eq-ok (with_override toml file.0 file.1 table over) _ h3 in
      let (done, checked, h5) = >>=-eq-ok (check_config toml name loaded.2 loaded.0) _ h4 in
      let same : loaded.0 ≡ config = pair-eq (loaded.0, loaded.1) (config, raw) h5 in
      let (named, c1) =
        guard-ok (text_eq loaded.0.app.name name) (name_mismatch loaded.2 loaded.0.app.name) _
          checked in
      let (described, c2) =
        guard-ok (not (is_empty loaded.0.app.description)) (empty_description loaded.2) _ c1 in
      let (licensed, c3) =
        guard-ok (not (is_empty loaded.0.app.license)) (empty_license loaded.2) _ c2 in
      let (valid, found) = read-found file is_read in
      rw (← same) (record {
        nonempty = λ e. nonempty_name name e valid;
        visible = visible_name name valid;
        plain = λ c i. is_allowed-IsPlain c (all-In is_allowed name (allowed_name name valid) c i);
        named = (text_eq_iff loaded.0.app.name name).0 named;
        described = not-false (is_empty loaded.0.app.description) described;
        licensed = not-false (is_empty loaded.0.app.license) licensed;
        allows = λ n i.
            check_names-In toml.is_syscall _ c3 n
              (In-append_left n loaded.0.run.seccomp_allow loaded.0.run.seccomp_deny i);
        denies = λ n i.
            check_names-In toml.is_syscall _ c3 n
              (In-append_right n loaded.0.run.seccomp_allow loaded.0.run.seccomp_deny i);
        found = found;
      })
    where
      pair-eq :
          (p q : AppConfig F K × Table V)
          → Path (Result Error (AppConfig F K × Table V)) (ok p) (ok q)
          → p.0 ≡ q.0
      pair-eq p q e = cc
