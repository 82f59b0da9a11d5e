-- ===== src/Common/Strings.antt =====
-- Text as the list of its UTF-8 bytes, and what the program uses of Rust's `str`. Every character
-- that the program looks for is ASCII, and an ASCII byte is no part of another character.
use Prim.Native.Nat.{ℕ, ◌+◌}
use Prim.Native.Char.{code}
use Prim.Native.String.{String}
use mathlib.Core.Path.{◌≡◌, refl}
use mathlib.Core.Logic.{◌↔◌}
use mathlib.Core.Bool.{Bool, true, false, not, ◌&&◌, ◌||◌}
use mathlib.Core.List.{List, [], ◌∷◌, ◌++◌}
use mathlib.Core.Option.{Option, none, some}
use native.Mathlib.Omega.{arith}
use climate.Common.Tests.{leb, ◌==◌, if◌then◌else◌}
use climate.Common.Lists.{is_empty, any, retain}

abbrev pub Text : Type 0
Text = List ℕ

-- The bytes of an ASCII literal.
abbrev pub codes : String → Text
codes String.[] = []
codes (String.◌∷◌ c s) = code c ∷ codes s

unfoldable pub text_eq : Text → Text → Bool
text_eq [] [] = true
text_eq [] (d ∷ t) = false
text_eq (c ∷ s) [] = false
text_eq (c ∷ s) (d ∷ t) = c == d && text_eq s t

pub text_eq_iff : (s t : Text) → (text_eq s t ≡ true) ↔ (s ≡ t)
unfolding text_eq
text_eq_iff [] [] = ground arith
text_eq_iff [] (d ∷ t) = ground arith
text_eq_iff (c ∷ s) [] = ground arith
text_eq_iff (c ∷ s) (d ∷ t) = ground (arith, text_eq_iff s t)

pub text_eq_refl : (s : Text) → text_eq s s ≡ true
text_eq_refl s = (text_eq_iff s s).1 refl

-- `u8::is_ascii_digit`, `is_ascii_alphabetic`, `is_ascii_alphanumeric` and `to_ascii_lowercase`.
abbrev pub is_upper : ℕ → Bool
is_upper c = leb b'A' c && leb c b'Z'

abbrev pub is_lower : ℕ → Bool
is_lower c = leb b'a' c && leb c b'z'

abbrev pub is_digit : ℕ → Bool
is_digit c = leb b'0' c && leb c b'9'

abbrev pub is_alphabetic : ℕ → Bool
is_alphabetic c = is_upper c || is_lower c

abbrev pub is_alphanumeric : ℕ → Bool
is_alphanumeric c = is_alphabetic c || is_digit c

abbrev pub to_lower : ℕ → ℕ
to_lower c = if is_upper c then c + 32 else c

-- `str::starts_with`, `contains` of one character, `ends_with` of one character.
abbrev pub starts_with : Text → Text → Bool
starts_with s [] = true
starts_with [] (d ∷ t) = false
starts_with (c ∷ s) (d ∷ t) = c == d && starts_with s t

abbrev pub contains : Text → ℕ → Bool
contains s b = any (λ c. c == b) s

abbrev pub ends_with : Text → ℕ → Bool
ends_with [] b = false
ends_with (c ∷ []) b = c == b
ends_with (c ∷ d ∷ s) b = ends_with (d ∷ s) b

-- `str::contains` and `ends_with` of a text.
abbrev pub contains_text : Text → Text → Bool
contains_text [] t = starts_with [] t
contains_text (c ∷ s) t = starts_with (c ∷ s) t || contains_text s t

abbrev pub ends_with_text : Text → Text → Bool
ends_with_text [] t = text_eq [] t
ends_with_text (c ∷ s) t = text_eq (c ∷ s) t || ends_with_text s t

-- `str::trim_start_matches` of a character and `trim_end_matches` of a test.
abbrev pub trim_start : ℕ → Text → Text
trim_start b [] = []
trim_start b (c ∷ s) = let rest = trim_start b s in if c == b then rest else c ∷ s

abbrev pub trim_end : (ℕ → Bool) → Text → Text
trim_end p [] = []
trim_end p (c ∷ s) = let rest = trim_end p s in if is_empty rest && p c then [] else c ∷ rest

-- `str::split` at a character: at least one field. The first field grows as the text is read.
abbrev pub push_first : ℕ → List Text → List Text
push_first c [] = (c ∷ []) ∷ []
push_first c (f ∷ fs) = (c ∷ f) ∷ fs

abbrev pub split_on : (ℕ → Bool) → Text → List Text
split_on p [] = [] ∷ []
split_on p (c ∷ s) = let rest = split_on p s in if p c then [] ∷ rest else push_first c rest

abbrev pub split : ℕ → Text → List Text
split b = split_on (λ c. c == b)

-- `str::split_whitespace` of text whose white space is ASCII.
abbrev pub is_whitespace : ℕ → Bool
is_whitespace c = c == b' ' || leb 9 c && leb c 13

abbrev pub split_whitespace : Text → List Text
split_whitespace s = retain (λ f. not (is_empty f)) (split_on is_whitespace s)

-- `str::lines`: the carriage return in front of a line feed goes with it.
abbrev pub strip_cr : Text → Text
strip_cr [] = []
strip_cr (c ∷ []) = if c == 13 then [] else c ∷ []
strip_cr (c ∷ d ∷ s) = c ∷ strip_cr (d ∷ s)

abbrev pub terminated : List Text → List Text
terminated [] = []
terminated (l ∷ []) = if is_empty l then [] else l ∷ []
terminated (l ∷ m ∷ ls) = strip_cr l ∷ terminated (m ∷ ls)

abbrev pub lines : Text → List Text
lines s = terminated (split 10 s)

-- `str::split_once` at a character.
abbrev pub push_left : ℕ → Option (Text × Text) → Option (Text × Text)
push_left c none = none
push_left c (some (a, b)) = some (c ∷ a, b)

abbrev pub split_once : ℕ → Text → Option (Text × Text)
split_once b [] = none
split_once b (c ∷ s) =
    let rest = split_once b s in if c == b then some ([], s) else push_left c rest

-- `str::replace` of one character by another.
abbrev pub replace : ℕ → ℕ → Text → Text
replace b d [] = []
replace b d (c ∷ s) = (if c == b then d else c) ∷ replace b d s

-- `[T]::join`.
abbrev pub join : Text → List Text → Text
join sep [] = []
join sep (t ∷ []) = t
join sep (t ∷ u ∷ ts) = t ++ (sep ++ join sep (u ∷ ts))
