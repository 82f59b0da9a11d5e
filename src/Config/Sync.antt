-- ===== src/Config/Sync.antt =====
-- `sync`, `fetch` and `fetch_and_checkout` of src/config.rs: the repository of definitions. The grit_lib
-- package, which speaks to the remote and reads and writes a repository, is the parameter `Git`.
pub mod Retried
pub mod CheckedOut
pub mod Synced
pub mod Tests
use climate.Common.{
  contains_text, ends_with_text, Text, codes, text_eq, starts_with, retain, not, ◌||◌,
  if◌then◌else◌, Option, none, some, List, [], ◌∷◌, ◌++◌, Bool, true, false, ℕ, ◌+◌, Result, ok,
  err, guard, context,
}
use climate.Common.Error.{
  Error, bad_scheme, not_fetched, no_branches, no_tip, no_default_branch, no_data_dir,
  no_remote_url, not_opened, bad_commit, not_compared, not_initialised, not_checked_out,
  target_occupied,
}
use climate.Common.Action.{Action, pure, asks, lift, modify, ◌>>=◌, ◌>>◌}

-- What the program reads of a `FetchOutcome`.
pub record Update : Type 0 where
  pub local_ref : Option Text
  pub new_oid : Option Text

pub record FetchOutcome : Type 0 where
  pub updates : List Update
  pub default_branch : Option Text

pub data Status : Type 0 where
  added copied deleted modified renamed type_changed unmerged : Status

pub record Change : Type 0 where
  pub path : Text
  pub status : Status

-- `T` stands for trees, and `F` for the files that are checked out.
pub record Git (T F : Type 0) : Type 0 where
  pub is_ssh_url : Text → Bool
  pub fetch_ssh : Text → Option FetchOutcome
  pub fetch_http : Text → Option FetchOutcome
  -- the tree of a commit
  pub tree_of : Text → Option T
  pub diff_trees : Option T → T → Option (List Change)
  -- whether it goes well, and the files behind it
  pub checkout_between_trees : Option T → T → F → Bool × F
  pub opens : Bool
  pub initialises : Bool
  -- the URL and the refspec in the settings of the new repository
  pub records_url : Bool

-- The directory: whether something is in it, whether its `.git` is a directory, and what stands there.
pub record AppsDir (F : Type 0) : Type 0 where
  pub is_occupied : Bool
  pub has_git_dir : Bool
  pub url : Option Text
  pub head : Option Text
  pub refs : List (Text × Text)
  pub files : F

pub record SyncCounts : Type 0 where
  pub added : ℕ
  pub changed : ℕ
  pub removed : ℕ

unfoldable pub resolve_ref : Text → List (Text × Text) → Option Text
resolve_ref name [] = none
resolve_ref name ((n, oid) ∷ refs) = if text_eq n name then some oid else resolve_ref name refs

abbrev add_change : Status → SyncCounts → SyncCounts
add_change Status.added counts = record counts { added = counts.added + 1 }
add_change copied counts = record counts { added = counts.added + 1 }
add_change deleted counts = record counts { removed = counts.removed + 1 }
add_change modified counts = record counts { changed = counts.changed + 1 }
add_change renamed counts = record counts { changed = counts.changed + 1 }
add_change type_changed counts = record counts { changed = counts.changed + 1 }
add_change unmerged counts = record counts { changed = counts.changed + 1 }

unfoldable pub count_change : Change → SyncCounts → SyncCounts
count_change change counts =
    if not (ends_with_text change.path (codes ".toml"))
    then counts
    else add_change change.status counts

unfoldable pub count_changes : List Change → SyncCounts → SyncCounts
count_changes [] counts = counts
count_changes (change ∷ changes) counts = count_changes changes (count_change change counts)

abbrev pub no_counts : SyncCounts
no_counts = record { added = 0; changed = 0; removed = 0 }

abbrev is_ref : Text → Option Text → Bool
is_ref tracking none = false
is_ref tracking (some name) = text_eq name tracking

-- `find(…).and_then(|u| u.new_oid)`
unfoldable pub tip_of : Text → List Update → Option Text
tip_of tracking [] = none
tip_of tracking (u ∷ updates) =
    if is_ref tracking u.local_ref then u.new_oid else tip_of tracking updates

abbrev no_updates : List Update → Bool
no_updates [] = true
no_updates (u ∷ updates) = false

abbrev pub tracking_of : Text → Text
tracking_of branch = codes "refs/remotes/origin/" ++ branch

abbrev pub local_of : Text → Text
local_of branch = codes "refs/heads/" ++ branch

module _ {T F : Type 0} (git : Git T F) where
  unfoldable pub fetch : Text → Result Error FetchOutcome
  fetch url =
      if git.is_ssh_url url
      then context (git.fetch_ssh url) (not_fetched url)
      else if starts_with url (codes "http://") || starts_with url (codes "https://")
      then context (git.fetch_http url) (not_fetched url)
      else err (bad_scheme url)

  abbrev pub old_tree : Option Text → Result Error (Option T)
  old_tree none = ok none
  old_tree (some old) = elim (git.tree_of old) [
    | none ↦ err bad_commit
    | some tree ↦ ok (some tree)
  ]

  abbrev pub checked_out : Bool × F → AppsDir F → Result Error (Unit {0}) × AppsDir F
  checked_out (works, files) s = (guard works not_checked_out, record s { files = files })

  -- From the tree that the branch had to that of its new tip, once the branch is there.
  unfoldable pub checkout : Option T → Text → Action (AppsDir F) SyncCounts
  checkout from_tree tip = do
    tree ← lift (context (git.tree_of tip) bad_commit)
    changes ← lift (context (git.diff_trees from_tree tree) not_compared)
    λ s. checked_out (git.checkout_between_trees from_tree tree s.files) s
    pure (count_changes changes no_counts)

  unfoldable pub advance : Text → Text → Action (AppsDir F) SyncCounts
  advance branch tip = do
    from_tree ← asks (λ s. old_tree (resolve_ref (local_of branch) s.refs))
    modify (λ s. record s { head = some (local_of branch) })
    modify (λ s. record s {
      refs = (local_of branch, tip) ∷ retain (λ r. not (text_eq r.0 (local_of branch))) s.refs;
    })
    checkout from_tree tip

  unfoldable pub fetch_and_checkout : Text → Action (AppsDir F) SyncCounts
  fetch_and_checkout url = do
    outcome ← lift (fetch url)
    lift (guard (not (no_updates outcome.updates)) (no_branches url))
    branch ← lift (context outcome.default_branch no_default_branch)
    tip ← lift (context (tip_of (tracking_of branch) outcome.updates) (no_tip branch))
    advance branch tip

  abbrev or_default : Option Text → Text
  or_default none = codes "https://github.com/gblach/climate-apps.git"
  or_default (some url) = url

  -- `apps_url` is $CLIMATE_APPS_URL.
  abbrev pub clone : Option Text → Action (AppsDir F) SyncCounts
  clone apps_url = do
    occupied ← asks (λ s. ok s.is_occupied)
    lift (guard (not occupied) target_occupied)
    lift (guard git.initialises not_initialised)
    modify (λ s. record s { is_occupied = true; has_git_dir = true })
    lift (guard git.records_url not_initialised)
    modify (λ s. record s { url = some (or_default apps_url) })
    fetch_and_checkout (or_default apps_url)

  abbrev pub pull_again : Action (AppsDir F) SyncCounts
  pull_again = do
    lift (guard git.opens not_opened)
    url ← asks (λ s. context s.url no_remote_url)
    fetch_and_checkout url

  -- `target` is whether the directory to write to is known.
  unfoldable pub sync : Option Text → Bool → Action (AppsDir F) SyncCounts
  sync apps_url target = do
    lift (guard target no_data_dir)
    there ← asks (λ s. ok s.has_git_dir)
    if there then pull_again else clone apps_url
