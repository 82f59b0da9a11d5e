-- ===== src/Command/Checked.antt =====
-- `check` finds every broken definition.
use climate.Common.{Text, List, [], ◌∷◌, Bool, Result, ok, err, ◌≡◌, refl, ◌↔◌, All, arith}
use climate.Common.Error.{Error}
use climate.Command.{names_of, failures, check_apps}

failures_iff :
    (checked : Text → Result Error (Unit {0})) (names : List Text)
    → (failures checked names ≡ 0) ↔ All (λ name. checked name ≡ ok tt) names
failures_iff checked [] = (λ e. tt, λ a. refl)
failures_iff checked (name ∷ names) = counted (checked name) refl (failures_iff checked names)
  where
    clash :
        (x : Error)
        → checked name ≡ ok tt
        → checked name ≡ err x
        → failures checked (name ∷ names) ≡ 0
    clash x a e = cc

    counted :
        (r : Result Error (Unit {0}))
        → checked name ≡ r
        → ((failures checked names ≡ 0) ↔ All (λ n. checked n ≡ ok tt) names)
        → (failures checked (name ∷ names) ≡ 0) ↔ All (λ n. checked n ≡ ok tt) (name ∷ names)
    counted (ok done) e rest =
        (λ h. (e, rest.0 (rw (e, failures) at h)), λ a. rw (e, failures) (rest.1 a.1))
    counted (err x) e rest = (λ h. ground (arith, rw (e, failures) at h), λ a. clash x a.0 e)

-- A check goes well exactly if the definition of every app that is meant can be loaded and fits this
-- machine.
pub check_apps-All :
    (app_names : List Text) (checked : Text → Result Error (Unit {0})) (every : Bool)
    (apps names : List Text)
    → names_of app_names every apps ≡ ok names
    → ((check_apps app_names checked every apps ≡ ok tt) ↔ All (λ name. checked name ≡ ok tt) names)
unfolding check_apps
check_apps-All app_names checked every apps names named = (
  λ h. (failures_iff checked names).0 (ground (arith, rw named at h)),
  λ a. rw (named, (failures_iff checked names).1 a) refl,
)
