-- ===== src/Command/Tests.antt =====
-- Two apps, of which one has a broken definition.
use climate.Common.{
  text_in, text_eq, Result, guard, ◌↔◌, All, Text, codes, text_eq, In, Option, none, some, List, [],
  ◌∷◌, ◌++◌, Bool, true, false, ok, ◌≡◌, refl,
}
use climate.Common.Action.{Ends}
use climate.Command.{Cli, hook, helper, names_of, check_apps, hook_args, helper_args, dispatch}
use climate.Common.Error.{Error, unknown_app}
use climate.Command.Checked.{check_apps-All}
use climate.Command.Dispatch.{dispatch-own_args}
use climate.Command.Link.{Dir, symlink, file, find, points_to, Rights, link}
use climate.Command.Link.Linked.{Untouched, link-points_to}
use climate.Command.Link.Unreplaced.{link-keeps}
use climate.Config.Load.{is_valid_name}

abbrev no_cli : List Text → Option Cli
no_cli args = none

valid : is_valid_name (codes "ffmpeg") ≡ true
unfolding is_valid_name
valid = refl

differs : text_eq (codes "ffmpeg") (codes "climate") ≡ false
unfolding text_eq
differs = refl

dispatch-own_args_example :
    (dispatch no_cli (hook_args (codes "/run/lo.sock")) ≡ ok (hook (codes "/run/lo.sock")))
    × (dispatch no_cli (helper_args (codes "/usr/bin" ++ b'/' ∷ codes "climate") true)
        ≡ ok (helper true))
dispatch-own_args_example = dispatch-own_args no_cli (codes "/usr/bin") (codes "/run/lo.sock") true

abbrev rights : Rights
rights = record { can_remove = λ name. true; can_create = λ name. true }

abbrev known : List Text
known = codes "ffmpeg" ∷ codes "broken" ∷ []

abbrev loads : Text → Bool
loads name = text_eq name (codes "ffmpeg")

abbrev bin : Dir
bin = (codes "climate", file) ∷ (codes "ffmpeg", symlink (codes "/opt/ffmpeg")) ∷ []

meant : names_of known true [] ≡ ok known
unfolding names_of
meant = refl

apart : text_in known (codes "climate") ≡ false
unfolding text_eq
apart = refl

link-points_to_example :
    Ends
      (λ done s'.
        (find (codes "climate") s' ≡ find (codes "climate") bin)
        × ((app : Text)
            → In app known
            → loads app ≡ true
            → points_to (codes "climate") (find app s') ≡ true)
        × Untouched known bin s')
      (λ s'. (find (codes "climate") s' ≡ find (codes "climate") bin) × Untouched known bin s')
      (link known loads rights (codes "climate") true true [] bin)
link-points_to_example =
    link-points_to known loads rights (codes "climate") true true [] known bin meant apart

there : find (codes "ffmpeg") bin ≡ some (symlink (codes "/opt/ffmpeg"))
unfolding find text_eq
there = refl

link-keeps_example :
    Ends
      (λ done s'. find (codes "ffmpeg") s' ≡ some (symlink (codes "/opt/ffmpeg")))
      (λ s'. find (codes "ffmpeg") s' ≡ some (symlink (codes "/opt/ffmpeg")))
      (link known loads rights (codes "climate") true false [] bin)
link-keeps_example =
    link-keeps known loads rights (codes "climate") true [] known bin (codes "ffmpeg")
      (symlink (codes "/opt/ffmpeg")) meant there

abbrev checked : Text → Result Error (Unit {0})
checked name = guard (loads name) (unknown_app name)

check_apps-All_example :
    (check_apps known checked true [] ≡ ok tt) ↔ All (λ name. checked name ≡ ok tt) known
check_apps-All_example = check_apps-All known checked true [] known meant
