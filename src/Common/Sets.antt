-- ===== src/Common/Sets.antt =====
-- A set of texts is a list, of which only the members matter.
use mathlib.Core.Path.{◌≡◌, refl}
use mathlib.Core.Bool.{Bool, true, not, ◌||◌}
use mathlib.Core.List.{List, [], ◌∷◌, ◌++◌}
use native.Mathlib.Omega.{arith}
use climate.Common.Lists.{any, retain, In}
use climate.Common.Members.{In-any}
use climate.Common.Strings.{Text, text_eq, text_eq_refl}

abbrev pub text_in : List Text → Text → Bool
text_in set t = any (λ u. text_eq u t) set

pub text_in-In : (set : List Text) (t : Text) → In t set → text_in set t ≡ true
text_in-In set t i = In-any (λ u. text_eq u t) t set i (text_eq_refl t)

pub text_in-append :
    (a b : List Text) (t : Text) → text_in (a ++ b) t ≡ (text_in a t || text_in b t)
text_in-append [] b t = refl
text_in-append (u ∷ a) b t = ground (arith, text_in-append a b t)

-- `HashSet::remove` and `BTreeSet::remove`.
abbrev pub remove_text : Text → List Text → List Text
remove_text n set = retain (λ u. not (text_eq u n)) set
