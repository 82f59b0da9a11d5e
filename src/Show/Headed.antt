-- ===== src/Show/Headed.antt =====
-- The headings of the sections in src/show.rs that can be empty.
use climate.Common.{
  Text, codes, text_eq_refl, is_empty, not, ◌&&◌, ◌||◌, ◌++◌, if◌then◌else◌, Option, none, some,
  List, [], ◌∷◌, Bool, true, false, In, all, inl, inr, ◌≡◌, refl, ap, sym, ◌∙◌, arith,
}
use climate.Config.{AppConfig, Entrypoint}
use climate.Config.Merge.{Table, nil, entry, get}
use climate.Show.{
  Display, Printer, defaulted, key, limit, written, as_table, key_absent, absent, has_keys, header,
  entrypoint_lines, run_lines, limit_lines,
}

abbrev run_keys : List Text
run_keys =
    codes "entrypoint"
    ∷ codes "args"
    ∷ codes "env"
    ∷ codes "mount-cwd"
    ∷ codes "mount"
    ∷ codes "network"
    ∷ codes "capabilities"
    ∷ codes "seccomp-allow"
    ∷ codes "seccomp-deny"
    ∷ []

abbrev limit_keys : List Text
limit_keys =
    codes "memory"
    ∷ codes "swap"
    ∷ codes "memory-high"
    ∷ codes "cpu"
    ∷ codes "cpu-shares"
    ∷ codes "pids"
    ∷ []

abbrev pub HasKeysOf : {V : Type 0} → List Text → Option (Table V) → Type 0
HasKeysOf keys none = Unit
HasKeysOf keys (some nil) = Unit
HasKeysOf keys (some (entry k v rest)) = In k keys × HasKeysOf keys (some rest)

abbrev pub is_none : {A : Type 0} → Option A → Bool
is_none none = true
is_none (some a) = false

-- A definition as it is read from a table: a section with a key that it does not have is refused, and a
-- key without a default value has one exactly if it is stated.
pub record IsReadFrom {V F K : Type 0} (raw : Table V) (config : AppConfig F K) : Type 0 where
  pub run_known : HasKeysOf run_keys (as_table (get (codes "run") raw))
  pub limits_known : HasKeysOf limit_keys (as_table (get (codes "limits") raw))
  pub entrypoint : is_none config.run.entrypoint ≡ absent raw (codes "run") (codes "entrypoint")
  pub memory : is_none config.limits.memory ≡ absent raw (codes "limits") (codes "memory")
  pub swap : is_none config.limits.swap ≡ absent raw (codes "limits") (codes "swap")
  pub memory_high :
      is_none config.limits.memory_high ≡ absent raw (codes "limits") (codes "memory-high")
  pub cpu : is_none config.limits.cpu ≡ absent raw (codes "limits") (codes "cpu")
  pub cpu_shares :
      is_none config.limits.cpu_shares ≡ absent raw (codes "limits") (codes "cpu-shares")
  pub pids : is_none config.limits.pids ≡ absent raw (codes "limits") (codes "pids")

all-false :
    {A : Type 0} (p : A → Bool) (x : A) (xs : List A) → In x xs → p x ≡ false → all p xs ≡ false
all-false p x [] i h = elim i [ ]
all-false p x (y ∷ ys) (inl e) h = rw (sym (ap p e) ∙ h) refl
all-false p x (y ∷ ys) (inr i) h = ground (arith, all-false p x ys i h)

all-true : {A : Type 0} (p : A → Bool) (xs : List A) → ((x : A) → p x ≡ true) → all p xs ≡ true
all-true p [] h = refl
all-true p (x ∷ xs) h = rw (h x) (all-true p xs h)

has_keys-absent :
    {V : Type 0} (keys : List Text) (t : Option (Table V))
    → HasKeysOf keys t
    → all (λ k. key_absent k t) keys ≡ not (has_keys t)
unfolding get
has_keys-absent keys none h = all-true _ keys (λ k. refl)
has_keys-absent keys (some nil) h = all-true _ keys (λ k. refl)
has_keys-absent keys (some (entry k v rest)) h =
    all-false (λ k'. key_absent k' (some (entry k v rest))) k keys h.0 (rw (text_eq_refl k) refl)

is_empty-append : (xs ys : List Text) → is_empty (xs ++ ys) ≡ is_empty xs && is_empty ys
is_empty-append [] ys = refl
is_empty-append (x ∷ xs) ys = refl

-- Whether nothing is printed of a key, of a limit, and of a heading.
defaulted-empty : (p : Printer) (line : Text) → is_empty (defaulted p line) ≡ not p.defaults
unfolding defaulted
defaulted-empty p line = ground (arith)

key-empty :
    (p : Printer) (name value : Text) (b : Bool)
    → is_empty (key p name value b) ≡ b && not p.defaults
unfolding key
key-empty p name value true = defaulted-empty p (name ++ (codes " = " ++ value))
key-empty p name value false = refl

limit-empty :
    {A : Type 0} (p : Printer) (name : Text) (write : A → Text) (value : Option A) (unset : Text)
    → is_empty (limit p name (written write value) unset) ≡ is_none value && not p.defaults
unfolding limit key
limit-empty p name write none unset =
    defaulted-empty p (codes "# " ++ (name ++ (codes " is unset: " ++ unset)))
limit-empty p name write (some value) unset = refl

header-empty :
    {V : Type 0} (p : Printer) (raw : Table V) (section : Text)
    → is_empty (header p raw section)
      ≡ not (has_keys (as_table (get section raw))) && not p.defaults
unfolding header
header-empty p raw section = by_test p.defaults (has_keys (as_table (get section raw)))
  where
    by_test :
        (d h : Bool)
        → is_empty (if d || h then (10 ∷ codes "[" ++ (section ++ codes "]")) ∷ [] else [])
          ≡ not h && not d
    by_test true true = refl
    by_test true false = refl
    by_test false true = refl
    by_test false false = refl

both : (a b d : Bool) → (a && d) && (b && d) ≡ (a && b) && d
both true b true = refl
both true true false = refl
both true false false = refl
both false b d = refl

and_true : (b : Bool) → b && true ≡ b
and_true true = refl
and_true false = refl

module _ {V F K : Type 0} (display : Display F K) (p : Printer) (raw : Table V)
    (config : AppConfig F K) (h : IsReadFrom raw config) where
  entrypoint_lines-empty :
      (e : Option Entrypoint)
      → is_empty (entrypoint_lines display p raw e) ≡ is_none e && not p.defaults
  unfolding key
  entrypoint_lines-empty none = defaulted-empty p _
  entrypoint_lines-empty (some e) = refl

  run_lines-empty :
      is_empty (run_lines display p raw config.run)
      ≡ all (absent raw (codes "run")) run_keys && not p.defaults
  unfolding run_lines
  run_lines-empty = simp (
    is_empty-append,
    key-empty,
    entrypoint_lines-empty,
    both,
    h.entrypoint,
    and_true (absent raw (codes "run") (codes "seccomp-deny")),
  )

  limit_lines-empty :
      is_empty (limit_lines display p raw config.limits)
      ≡ all (absent raw (codes "limits")) limit_keys && not p.defaults
  unfolding limit_lines
  limit_lines-empty = simp (
    is_empty-append,
    limit-empty,
    both,
    h.memory,
    h.swap,
    h.memory_high,
    h.cpu,
    h.cpu_shares,
    h.pids,
    and_true (absent raw (codes "limits") (codes "pids")),
  )

  -- Where a definition is one that was read from the table: the heading of a section that can be empty is
  -- printed exactly if a line of the section is, with the keys that have their default value shown or
  -- not.
  pub header-run_lines :
      (is_empty (header p raw (codes "run")) ≡ is_empty (run_lines display p raw config.run))
      × (is_empty (header p raw (codes "limits"))
          ≡ is_empty (limit_lines display p raw config.limits))
  unfolding absent
  header-run_lines = (
    header-empty p raw (codes "run")
        ∙ ap (λ b. b && not p.defaults) (sym (has_keys-absent run_keys _ h.run_known))
        ∙ sym run_lines-empty,
    header-empty p raw (codes "limits")
        ∙ ap (λ b. b && not p.defaults) (sym (has_keys-absent limit_keys _ h.limits_known))
        ∙ sym limit_lines-empty,
  )
