-- ===== src/Config/Names/Groups.antt =====
-- The apps of the groups of one directory.
use climate.Common.{
  Text, codes, In, In-append, In-append_left, In-append_right, is_empty, Option, none, some, List,
  [], ◌∷◌, ◌++◌, false, inl, inr, ◌≡◌, refl, ap, sym, ◌∙◌,
}
use climate.Spec.Paths.{join_path}
use climate.Config.Names.{in_group, in_groups}
use climate.Config.Names.Stems.{apps_of_iff}

module _ (read_dir : Text → Option (List Text)) (app : Text) where
  -- In a group of one directory.
  pub record IsIn (dir : Text) (groups : List Text) : Type 0 where
    pub group : Text
    pub grouped : In group groups
    pub names : List Text
    pub reads : read_dir (join_path dir group) ≡ some names
    pub named : In (app ++ codes ".toml") names
    pub not_empty : is_empty app ≡ false

  in_group_sound :
      (dir group : Text) (names : Option (List Text))
      → read_dir (join_path dir group) ≡ names
      → In app (in_group read_dir names)
      → IsIn dir (group ∷ [])
  in_group_sound dir group none e i = elim i [ ]
  in_group_sound dir group (some names) e i =
      let (named, full) = (apps_of_iff app names).0 i in
      record {
        group = group;
        grouped = inl refl;
        names = names;
        reads = e;
        named = named;
        not_empty = full;
      }

  pub in_groups_sound :
      (dir : Text) (groups : List Text) → In app (in_groups read_dir dir groups) → IsIn dir groups
  unfolding in_groups
  in_groups_sound dir [] i = elim i [ ]
  in_groups_sound dir (group ∷ groups) i = elim (In-append app _ _ i) [
    | inl j ↦
        let q = in_group_sound dir group (read_dir (join_path dir group)) refl j in
        record {
          group = q.group;
          grouped = here q.grouped;
          names = q.names;
          reads = q.reads;
          named = q.named;
          not_empty = q.not_empty;
        }
    | inr j ↦
        let q = in_groups_sound dir groups j in
        record {
          group = q.group;
          grouped = inr q.grouped;
          names = q.names;
          reads = q.reads;
          named = q.named;
          not_empty = q.not_empty;
        }
  ]
    where
      here : {g : Text} → In g (group ∷ []) → In g (group ∷ groups)
      here (inl e) = inl e
      here (inr j) = elim j [ ]

  pub in_groups_complete :
      (dir : Text) (groups : List Text) → IsIn dir groups → In app (in_groups read_dir dir groups)
  unfolding in_groups
  in_groups_complete dir [] q = elim q.grouped [ ]
  in_groups_complete dir (group ∷ groups) q = elim q.grouped [
    | inl e ↦
        let reads : read_dir (join_path dir group) ≡ some q.names =
          ap (λ g. read_dir (join_path dir g)) (sym e) ∙ q.reads in
        In-append_left app (in_group read_dir (read_dir (join_path dir group)))
          (in_groups read_dir dir groups)
          (rw reads ((apps_of_iff app q.names).1 (q.named, q.not_empty)))
    | inr j ↦ In-append_right app _ _ (
        in_groups_complete dir groups (record {
          group = q.group;
          grouped = j;
          names = q.names;
          reads = q.reads;
          named = q.named;
          not_empty = q.not_empty;
        }))
  ]
