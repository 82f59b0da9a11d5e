-- ===== src/Config/Names/Stems.antt =====
-- The files of one group that define an app.
use climate.Common.{
  Text, codes, text_eq, text_eq_iff, text_eq_refl, In, is_empty, ◌==◌, Option, none, some, List, [],
  ◌∷◌, ◌++◌, true, false, ℕ, ap₂, inl, inr, ◌⊎◌, ◌≡◌, ◌↔◌, refl, ap, sym, ◌∙◌, arith, Bool-cases,
}
use climate.Config.Names.{split_last, toml_stem, app_of, push_app, apps_of}

split_last-append :
    (s t : Text) (b : ℕ) → split_last b t ≡ none → split_last b (s ++ b ∷ t) ≡ some (s, t)
unfolding split_last
split_last-append [] t b h = rw (h, self b) refl
  where
    self : (n : ℕ) → (n == n) ≡ true
    self n = ground arith
split_last-append (c ∷ s) t b h = rw (split_last-append s t b h) refl

abbrev some_pair : Text × Text → Option (Text × Text)
some_pair p = some p

abbrev no_pair : Option (Text × Text)
no_pair = none

split_last_sound : (name s t : Text) (b : ℕ) → split_last b name ≡ some (s, t) → name ≡ s ++ b ∷ t
unfolding split_last
split_last_sound [] s t b h = cc
split_last_sound (c ∷ name) s t b h =
    step (split_last b name) refl (λ s' t'. split_last_sound name s' t' b)
  where
    parts : (u v x y : Text) → some_pair (u, v) ≡ some (x, y) → (u ≡ x) × (v ≡ y)
    parts u v x y e = (cc, cc)

    nothing : no_pair ≡ some_pair (s, t) → c ∷ name ≡ s ++ b ∷ t
    nothing k = cc

    step :
        (o : Option (Text × Text))
        → split_last b name ≡ o
        → ((s' t' : Text) → split_last b name ≡ some (s', t') → name ≡ s' ++ b ∷ t')
        → c ∷ name ≡ s ++ b ∷ t
    step (some (s', t')) e rest =
        let (e1, e2) = parts (c ∷ s') t' s t (rw (e, split_last) at h) in
        ap (λ x. c ∷ x) (rest s' t' e) ∙ ap₂ (λ u v. u ++ b ∷ v) e1 e2
    step none e rest = elim (Bool-cases (c == b)) [
      | inl same ↦
          let (e1, e2) = parts [] name s t (rw (e, same, split_last) at h) in
          let here : c ≡ b = ground arith in
          ap₂ (λ x y. x ∷ y) here refl ∙ ap₂ (λ u v. u ++ b ∷ v) e1 e2
      | inr other ↦ nothing (rw (e, other, split_last) at h)
    ]

abbrev no_app : Option Text
no_app = none

abbrev an_app : Text → Option Text
an_app app = some app

app_of-append : (app : Text) → is_empty app ≡ false → app_of (app ++ codes ".toml") ≡ some app
unfolding app_of split_last
app_of-append app h =
    ap toml_stem (split_last-append app (codes "toml") b'.' refl)
    ∙ (rw (h, text_eq_refl (codes "toml")) refl)

app_of_sound :
    (name app : Text)
    → app_of name ≡ some app
    → (name ≡ app ++ codes ".toml") × (is_empty app ≡ false)
unfolding app_of
app_of_sound name app h = to (split_last b'.' name) refl h
  where
    stem_is :
        (stem extension : Text)
        → toml_stem (some (stem, extension)) ≡ some app
        → (stem ≡ app) × (is_empty stem ≡ false) × (text_eq extension (codes "toml") ≡ true)
    stem_is stem extension k = ground arith

    to :
        (o : Option (Text × Text))
        → split_last b'.' name ≡ o
        → toml_stem (split_last b'.' name) ≡ some app
        → (name ≡ app ++ codes ".toml") × (is_empty app ≡ false)
    to none e k = cc
    to (some (stem, extension)) e k =
        let (same, full, toml) = stem_is stem extension (rw e at k) in
        (
          split_last_sound name stem extension b'.' e
              ∙ ap₂ (λ u v. u ++ b'.' ∷ v) same ((text_eq_iff extension (codes "toml")).0 toml),
          ap is_empty (sym same) ∙ full,
        )

pub apps_of_iff :
    (app : Text) (names : List Text)
    → In app (apps_of names) ↔ (In (app ++ codes ".toml") names × (is_empty app ≡ false))
unfolding apps_of
apps_of_iff app [] = (λ i. elim i [ ], λ p. elim p.0 [ ])
apps_of_iff app (name ∷ names) = step (app_of name) refl (apps_of_iff app names)
  where
    step :
        (o : Option Text)
        → app_of name ≡ o
        → (In app (apps_of names) ↔ (In (app ++ codes ".toml") names × (is_empty app ≡ false)))
        → In app (push_app (app_of name) (apps_of names))
          ↔ (In (app ++ codes ".toml") (name ∷ names) × (is_empty app ≡ false))
    step none e rest = (
      λ i. let (j, full) = rest.0 (rw e at i) in (inr j, full),
      λ p. elim p.0 [
        | inl same ↦ clash e (ap app_of (sym same) ∙ app_of-append app p.1)
        | inr j ↦ rw e (rest.1 (j, p.1))
      ],
    )
      where
        clash :
            app_of name ≡ no_app
            → app_of name ≡ some app
            → In app (push_app (app_of name) (apps_of names))
        clash a b = cc
    step (some a) e rest = (
      λ i. elim (the_first (rw e at i)) [
        | inl same ↦
            let (named, full) = app_of_sound name a e in
            (inl (ap (λ x. x ++ codes ".toml") same ∙ sym named), ap is_empty same ∙ full)
        | inr j ↦ let (k, full) = rest.0 j in (inr k, full)
      ],
      λ p. elim p.0 [
        | inl same ↦ rw e (inl (the_same (sym (ap app_of (sym same) ∙ app_of-append app p.1) ∙ e)))
        | inr j ↦ rw e (inr (rest.1 (j, p.1)))
      ],
    )
      where
        the_first : In app (push_app (some a) (apps_of names)) → (app ≡ a) ⊎ In app (apps_of names)
        the_first i = i

        the_same : an_app app ≡ some a → app ≡ a
        the_same h = cc
