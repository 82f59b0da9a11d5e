-- ===== src/Command/Link/Created.antt =====
-- What `create_symlink` leaves.
use climate.Common.{
  Text, text_eq, text_eq_iff, text_eq_refl, not, Bool-cases, Option, none, some, [], ◌∷◌, inl, inr,
  Bool, true, false, Result, ok, guard, ◌≡◌, refl, ap, sym, ◌∙◌, arith,
}
use climate.Common.Error.{Error, already_exists}
use climate.Common.Action.{
  Promises, asks, change, pure-Promises, asks-Promises, lift-Promises, change-Promises,
  bind-Promises, when-Promises,
}
use climate.Command.Link.{
  Entry, symlink, Dir, find, points_to, same_path_refl, drop_entry, Rights, remove_file,
  add_symlink, make_way, create_symlink,
}

find-drop :
    (name other : Text) (s : Dir)
    → text_eq other name ≡ false
    → find other (drop_entry name s) ≡ find other s
unfolding find
find-drop name other [] h = refl
find-drop name other ((n, e) ∷ rest) h = elim (Bool-cases (text_eq n name)) [
  | inl same ↦
      let differs : text_eq n other ≡ false =
        rw ((text_eq_iff n name).0 same) (other_way name other h) in
      ground (arith, find-drop name other rest h)
  | inr stays ↦ ground (arith, find-drop name other rest h)
]
  where
    other_way : (a b : Text) → text_eq b a ≡ false → text_eq a b ≡ false
    other_way a b e = elim (Bool-cases (text_eq a b)) [
      | inl same ↦ ground (arith, ap (λ t. text_eq b t) ((text_eq_iff a b).0 same), text_eq_refl b)
      | inr differs ↦ differs
    ]

-- The entries of other names are as they were.
abbrev pub Around : Text → Dir → Dir → Type 0
Around name s s' = (other : Text) → text_eq other name ≡ false → find other s' ≡ find other s

pub find_cons :
    (name other : Text) (e : Entry) (s : Dir)
    → text_eq other name ≡ false
    → find other ((name, e) ∷ s) ≡ find other s
unfolding find
find_cons name other e s h = elim (Bool-cases (text_eq name other)) [
  | inl same ↦
      ground
        (arith, ap (λ t. text_eq other t) ((text_eq_iff name other).0 same), text_eq_refl other)
  | inr differs ↦ rw differs refl
]

find_here : (name : Text) (e : Entry) (s : Dir) → find name ((name, e) ∷ s) ≡ some e
unfolding find
find_here name e s = rw (text_eq_refl name) refl

abbrev known : Option Entry → Result Error (Option Entry)
known found = ok found

module _ (rights : Rights) (target name : Text) where
  pub add_symlink-ok :
      (s s' : Dir)
      → add_symlink rights target name s ≡ ok s'
      → (s' ≡ (name, symlink target) ∷ s) × (find name s ≡ none)
  unfolding add_symlink
  add_symlink-ok s s' h = ground arith

  remove_file-ok :
      (e : Entry) (s s' : Dir) → remove_file rights name e s ≡ ok s' → s' ≡ drop_entry name s
  unfolding remove_file
  remove_file-ok e s s' h = ground arith

  make_way-Promises :
      (s0 : Dir) (force : Bool) (found : Option Entry)
      → Promises
          (λ s. s ≡ s0)
          (make_way rights name force found)
          (λ done s. Around name s0 s)
          (Around name s0)
  unfolding make_way
  make_way-Promises s0 force none = pure-Promises _ _ tt (λ s p other h. rw p refl)
  make_way-Promises s0 force (some e) =
      bind-Promises (λ done s. s ≡ s0) _ (λ done. change (remove_file rights name e))
        (lift-Promises _ (guard force (already_exists name)) (λ s p other h. rw p refl)
          (λ s done p e. p))
        (λ done.
          change-Promises _ (remove_file rights name e) (λ s p other h. rw p refl)
            (λ s s' p made other h.
              rw (remove_file-ok e s s' made) (find-drop name other s h ∙ ap (find other) p)))

  add_symlink-Promises :
      (s0 : Dir)
      → Promises
          (Around name s0)
          (change (add_symlink rights target name))
          (λ done s. (points_to target (find name s) ≡ true) × Around name s0 s)
          (Around name s0)
  add_symlink-Promises s0 =
      change-Promises _ (add_symlink rights target name) (λ s p. p)
        (λ s s' p made.
          let (e, free) = add_symlink-ok s s' made in
          (
            rw e
                (ap (points_to target) (find_here name (symlink target) s) ∙ same_path_refl target),
            λ other h. rw e (find_cons name other (symlink target) s h ∙ p other h),
          ))

  pub create_symlink-Promises :
      (s0 : Dir) (force : Bool)
      → Promises
          (λ s. s ≡ s0)
          (create_symlink rights target name force)
          (λ done s. (points_to target (find name s) ≡ true) × Around name s0 s)
          (Around name s0)
  unfolding create_symlink
  create_symlink-Promises s0 force =
      bind-Promises (λ found s. (s ≡ s0) × (find name s0 ≡ found)) (asks (λ s. ok (find name s))) _
        (asks-Promises _ _ (λ s p other h. rw p refl)
          (λ s found p e. (p, sym (ap (find name) p) ∙ found_eq s found e)))
        (λ found.
          when-Promises _ (not (points_to target found)) _
            (λ there s p. (
              ap (points_to target) (ap (find name) p.0 ∙ p.1)
                  ∙ twice (points_to target found) there,
              λ other h. rw p.0 refl,
            ))
            (λ missing.
              bind-Promises (λ done s. Around name s0 s) (make_way rights name force found) _
                (record { ends = λ s p. (make_way-Promises s0 force found).ends s p.0 })
                (λ done. add_symlink-Promises s0)))
    where
      found_eq :
          (s : Dir) (found : Option Entry) → known (find name s) ≡ ok found → find name s ≡ found
      found_eq s found e = cc

      twice : (b : Bool) → not b ≡ false → b ≡ true
      twice b h = ground arith
