-- ===== src/Config/Names/Listed.antt =====
-- Which apps are listed, and in which order.
use climate.Common.{
  Text, codes, text_eq, text_eq_iff, text_in, text_in-In, In, In-append, In-append_left,
  In-append_right, is_empty, ◌||◌, Option, none, some, List, [], ◌∷◌, ◌++◌, Bool, true, false,
  any-In, inl, inr, ◌≡◌, ◌↔◌, refl, ap, sym, ◌∙◌, arith,
}
use climate.Seccomp.Sets.{text_in-extend, IsAscending, IsAscending-nil, extend-IsAscending}
use climate.Spec.Paths.{join_path}
use climate.Config.Names.{in_dir, in_dirs, app_names}
use climate.Config.Names.Groups.{IsIn, in_groups_sound, in_groups_complete}

-- The app has a definition in a directory below one of those that are searched.
pub record IsListed (read_dir : Text → Option (List Text)) (dirs : List Text) (app : Text)
    : Type 0 where
  pub dir : Text
  pub searched : In dir dirs
  pub groups : List Text
  pub lists : read_dir dir ≡ some groups
  pub group : Text
  pub grouped : In group groups
  pub names : List Text
  pub reads : read_dir (join_path dir group) ≡ some names
  pub named : In (app ++ codes ".toml") names
  pub not_empty : is_empty app ≡ false

module _ (read_dir : Text → Option (List Text)) (app : Text) where
  in_dirs_sound : (dirs : List Text) → In app (in_dirs read_dir dirs) → IsListed read_dir dirs app
  unfolding in_dirs
  in_dirs_sound [] i = elim i [ ]
  in_dirs_sound (dir ∷ dirs) i = elim (In-append app _ _ i) [
    | inl j ↦ from (read_dir dir) refl j
    | inr j ↦
        let q = in_dirs_sound dirs j in
        record {
          dir = q.dir;
          searched = inr q.searched;
          groups = q.groups;
          lists = q.lists;
          group = q.group;
          grouped = q.grouped;
          names = q.names;
          reads = q.reads;
          named = q.named;
          not_empty = q.not_empty;
        }
  ]
    where
      from :
          (groups : Option (List Text))
          → read_dir dir ≡ groups
          → In app (in_dir read_dir dir groups)
          → IsListed read_dir (dir ∷ dirs) app
      from none e j = elim j [ ]
      from (some groups) e j =
          let q = in_groups_sound read_dir app dir groups j in
          record {
            dir = dir;
            searched = inl refl;
            groups = groups;
            lists = e;
            group = q.group;
            grouped = q.grouped;
            names = q.names;
            reads = q.reads;
            named = q.named;
            not_empty = q.not_empty;
          }

  in_dirs_complete :
      (dirs : List Text) (dir : Text) (groups : List Text)
      → In dir dirs
      → read_dir dir ≡ some groups
      → IsIn read_dir app dir groups
      → In app (in_dirs read_dir dirs)
  unfolding in_dirs
  in_dirs_complete [] dir groups i e q = elim i [ ]
  in_dirs_complete (d ∷ dirs) dir groups (inl same) e q =
      let lists : read_dir d ≡ some groups = ap read_dir (sym same) ∙ e in
      In-append_left app (in_dir read_dir d (read_dir d)) (in_dirs read_dir dirs)
        (rw lists (rw same at (in_groups_complete read_dir app dir groups q)))
  in_dirs_complete (d ∷ dirs) dir groups (inr i) e q =
      In-append_right app _ _ (in_dirs_complete dirs dir groups i e q)

-- The apps that are listed are those that have a definition somewhere, in whichever of the directories and
-- whichever group: every one of them and no other, in the order of their names and each once.
pub app_names-IsListed :
    (read_dir : Text → Option (List Text)) (dirs : List Text)
    → IsAscending (app_names read_dir dirs)
      × ((app : Text) → (text_in (app_names read_dir dirs) app ≡ true) ↔ IsListed read_dir dirs app)
unfolding app_names
app_names-IsListed read_dir dirs = (
  extend-IsAscending (in_dirs read_dir dirs) [] IsAscending-nil,
  λ app. (
    λ h. in_dirs_sound read_dir app dirs (
        In-text_in (in_dirs read_dir dirs) app (
          without_end (text_in (in_dirs read_dir dirs) app)
            (sym (text_in-extend app (in_dirs read_dir dirs) []) ∙ h))),
    λ q.
        text_in-extend app (in_dirs read_dir dirs) []
        ∙ with_end (text_in (in_dirs read_dir dirs) app) (
            text_in-In (in_dirs read_dir dirs) app (
              in_dirs_complete read_dir app dirs q.dir q.groups q.searched q.lists (record {
                group = q.group;
                grouped = q.grouped;
                names = q.names;
                reads = q.reads;
                named = q.named;
                not_empty = q.not_empty;
              }))),
  ),
)
  where
    without_end : (b : Bool) → (b || false) ≡ true → b ≡ true
    without_end b h = ground arith

    with_end : (b : Bool) → b ≡ true → (b || false) ≡ true
    with_end b h = ground arith

    In-text_in : (set : List Text) (t : Text) → text_in set t ≡ true → In t set
    In-text_in set t h =
        let (u, i, e) = any-In (λ u. text_eq u t) set h in moved ((text_eq_iff u t).0 e) i
      where
        moved : {u : Text} → u ≡ t → In u set → In t set
        moved e i = rw⁻¹ e i
