-- ===== src/Command/Link/Unreplaced.antt =====
-- `link` without `-f`.
use climate.Common.{
  Text, text_eq, text_eq_iff, not, Bool-cases, Option, none, some, List, inl, inr, Bool, false, ok,
  guard, ◌≡◌, ap, ◌∙◌,
}
use climate.Common.Error.{already_exists}
use climate.Common.Action.{
  Promises, Ends, asks, change, pure-Promises, asks-Promises, lift-Promises, change-Promises,
  bind-Promises, each-Promises, when-Promises,
}
use climate.Command.{names_of}
use climate.Command.Link.{
  Entry, symlink, Dir, find, points_to, Rights, remove_file, add_symlink, make_way, create_symlink,
  link_app, link,
}
use climate.Command.Link.Created.{find_cons, add_symlink-ok}

module _ (rights : Rights) (target name other : Text) (e : Entry) where
  abbrev Keeps : Dir → Type 0
  Keeps s = find other s ≡ some e

  add_symlink-Keeps : (s s' : Dir) → Keeps s → add_symlink rights target name s ≡ ok s' → Keeps s'
  add_symlink-Keeps s s' p made =
      let (same, free) = add_symlink-ok rights target name s s' made in
      elim (Bool-cases (text_eq other name)) [
        | inl here ↦ clash (ap (λ n. find n s) ((text_eq_iff other name).0 here) ∙ free)
        | inr away ↦ rw same (find_cons name other (symlink target) s away ∙ p)
      ]
    where
      clash : find other s ≡ none → Keeps s'
      clash q = cc

  make_way-Keeps :
      (found : Option Entry)
      → Promises Keeps (make_way rights name false found) (λ done s. Keeps s) Keeps
  unfolding make_way
  make_way-Keeps none = pure-Promises _ _ tt (λ s p. p)
  make_way-Keeps (some f) =
      bind-Promises (λ done s. ⊥) _ (λ done. change (remove_file rights name f))
        (lift-Promises _ (guard false (already_exists name)) (λ s p. p) (λ s done p h. cc))
        (λ done. record { ends = λ s p. elim p [ ] })

  create_symlink-Keeps :
      Promises Keeps (create_symlink rights target name false) (λ done s. Keeps s) Keeps
  unfolding create_symlink
  create_symlink-Keeps =
      bind-Promises (λ found s. Keeps s) (asks (λ s. ok (find name s))) _
        (asks-Promises _ _ (λ s p. p) (λ s found p e. p))
        (λ found.
          when-Promises _ (not (points_to target found)) _ (λ there s p. p)
            (λ missing.
              bind-Promises (λ done s. Keeps s) (make_way rights name false found) _
                (make_way-Keeps found)
                (λ done.
                  change-Promises _ (add_symlink rights target name) (λ s p. p) add_symlink-Keeps)))

-- Without `-f` no entry is replaced or lost, however the linking ends.
pub link-keeps :
    (app_names : List Text) (loads : Text → Bool) (rights : Rights) (exe_name : Text) (every : Bool)
    (apps names : List Text) (s : Dir) (other : Text) (e : Entry)
    → names_of app_names every apps ≡ ok names
    → find other s ≡ some e
    → Ends
        (λ done s'. find other s' ≡ some e)
        (λ s'. find other s' ≡ some e)
        (link app_names loads rights exe_name every false apps s)
unfolding link link_app
link-keeps app_names loads rights exe_name every apps names s other e named there = rw named (
    (each-Promises (λ left. Keeps rights exe_name other other e)
        (link_app app_names loads rights exe_name false)
        (λ app left.
          when-Promises _ (loads app) _ (λ skipped s p. p)
            (λ good. create_symlink-Keeps rights exe_name app other e))
        names).ends
      s there)
