-- ===== src/Command/Link/Linked.antt =====
-- What `link` leaves.
use climate.Common.{
  Text, text_eq, text_eq_iff, text_in, text_in-In, In, Bool-cases, List, ◌∷◌, inl, inr, ◌⊎◌, Bool,
  true, false, ok, ◌≡◌, refl, ap, ◌∙◌, arith,
}
use climate.Common.Action.{Promises, Promises-weaken, Ends, each, each-Promises, when-Promises}
use climate.Command.{names_of}
use climate.Command.Link.{Dir, find, points_to, Rights, create_symlink, link_app, link}
use climate.Command.Link.Created.{Around, create_symlink-Promises}

-- The entries of no app are as they were.
abbrev pub Untouched : List Text → Dir → Dir → Type 0
Untouched names s0 s = (other : Text) → text_in names other ≡ false → find other s ≡ find other s0

module _ (app_names : List Text) (loads : Text → Bool) (rights : Rights) (exe_name : Text) where
  -- Every app that can be loaded is linked, or still to come.
  abbrev Linking : List Text → Dir → List Text → Dir → Type 0
  Linking names s0 left s =
      ((app : Text)
        → In app names
        → loads app ≡ true
        → In app left ⊎ (points_to exe_name (find app s) ≡ true))
      × Untouched names s0 s

  differs_from :
      (names : List Text) (app other : Text)
      → In app names
      → text_in names other ≡ false
      → text_eq other app ≡ false
  differs_from names app other i h = elim (Bool-cases (text_eq other app)) [
    | inl same ↦
        ground (arith, ap (text_in names) ((text_eq_iff other app).0 same), text_in-In names app i)
    | inr differs ↦ differs
  ]

  relink :
      (names left : List Text) (app : Text) (s0 s s' : Dir)
      → In app names
      → Linking names s0 (app ∷ left) s
      → (points_to exe_name (find app s') ≡ true) × Around app s s'
      → Linking names s0 left s'
  relink names left app s0 s s' i p q = (
    λ other j good. elim (Bool-cases (text_eq other app)) [
      | inl same ↦ inr (rw ((text_eq_iff other app).0 same) q.0)
      | inr differs ↦ elim (p.0 other j good) [
        | inl (inl e) ↦ inr (rw e q.0)
        | inl (inr later) ↦ inl later
        | inr there ↦ inr (ap (points_to exe_name) (q.1 other differs) ∙ there)
      ]
    ],
    λ other h. q.1 other (differs_from names app other i h) ∙ p.1 other h,
  )

  abbrev Rest : List Text → Dir → List Text → Dir → Type 0
  Rest names s0 left s = ((app : Text) → In app left → In app names) × Linking names s0 left s

  link_app-Promises :
      (force : Bool) (names : List Text) (s0 : Dir) (app : Text) (left : List Text)
      → Promises
          (Rest names s0 (app ∷ left))
          (link_app app_names loads rights exe_name force app)
          (λ done s. Rest names s0 left s)
          (Untouched names s0)
  unfolding link_app
  link_app-Promises force names s0 app left =
      when-Promises _ (loads app) _
        (λ skipped s p. (λ other j. p.0 other (inr j), skip s p skipped))
        (λ good. record {
          ends = λ s p.
              (Promises-weaken (create_symlink rights exe_name app force)
                  (create_symlink-Promises rights exe_name app s force)
                  (λ s' done q. (
                    λ other j. p.0 other (inr j),
                    relink names left app s0 s s' (p.0 app (inl refl)) p.1 q,
                  ))
                  (λ s' q other h.
                    q other (differs_from names app other (p.0 app (inl refl)) h)
                    ∙ p.1.1 other h)).ends
                s refl;
        })
    where
      skip : (s : Dir) → Rest names s0 (app ∷ left) s → loads app ≡ false → Linking names s0 left s
      skip s p skipped = (
        λ other j good. elim (p.1.0 other j good) [
          | inl (inl e) ↦ ground (arith, ap loads e)
          | inl (inr later) ↦ inl later
          | inr there ↦ inr there
        ],
        p.1.1,
      )

  -- Where no app that is meant has the name of the program's own file: a linking that goes well leaves a
  -- symlink to the program for every app that is meant and can be loaded. However it ends, the
  -- program's file and the entries of other names are as they were.
  pub link-points_to :
      (every force : Bool) (apps names : List Text) (s : Dir)
      → names_of app_names every apps ≡ ok names
      → text_in names exe_name ≡ false
      → Ends
          (λ done s'.
            (find exe_name s' ≡ find exe_name s)
            × ((app : Text)
                → In app names
                → loads app ≡ true
                → points_to exe_name (find app s') ≡ true)
            × Untouched names s s')
          (λ s'. (find exe_name s' ≡ find exe_name s) × Untouched names s s')
          (link app_names loads rights exe_name every force apps s)
  unfolding link
  link-points_to every force apps names s e own = rw e (
      (Promises-weaken (each (link_app app_names loads rights exe_name force) names)
          (each-Promises (Rest names s) (link_app app_names loads rights exe_name force)
            (λ app left. link_app-Promises force names s app left) names)
          (λ s' done p. (
            p.1.1 exe_name own,
            λ app i good. elim (p.1.0 app i good) [
              | inl later ↦ elim later [ ]
              | inr there ↦ there
            ],
            p.1.1,
          ))
          (λ s' p. (p exe_name own, p))).ends
        s (λ app i. i, (λ app i good. inl i, λ other h. refl)))
