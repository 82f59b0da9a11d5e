-- ===== src/Config/Sync/Tests.antt =====
-- Runs of src/config.rs's `sync` against one remote, whose trees are numbers; the files of a tree are the
-- number after its own.
use climate.Common.{
  codes, text_eq, sym, ap, Option, none, some, List, [], ◌∷◌, Bool, true, false, ℕ, ◌+◌, ok, err,
  ◌≡◌, refl,
}
use climate.Common.Error.{not_checked_out, target_occupied}
use climate.Common.Action.{Ends}
use climate.Config.Sync.{
  Update, FetchOutcome, Change, Git, Status, AppsDir, resolve_ref, count_change, count_changes,
  no_counts, old_tree, tip_of, fetch, checkout, advance, fetch_and_checkout, sync,
}
use climate.Config.Sync.Synced.{IsSynced, sync-IsSynced}
use climate.Config.Sync.Retried.{IsAhead, once_more, fetch_and_checkout-not_repaired}

abbrev main_update : Update
main_update = record {
  local_ref = some (codes "refs/remotes/origin/main");
  new_oid = some (codes "a");
}

abbrev outcome : FetchOutcome
outcome = record { updates = main_update ∷ []; default_branch = some (codes "main") }

abbrev files_of : Option ℕ → ℕ
files_of none = 0
files_of (some tree) = tree + 1

abbrev changes_of : Option ℕ → List Change
changes_of none =
    record { path = codes "vim.toml"; status = Status.added }
    ∷ record { path = codes "README"; status = Status.added }
    ∷ []
changes_of (some tree) = []

abbrev remote : Git ℕ ℕ
remote = record {
  is_ssh_url = λ url. false;
  fetch_ssh = λ url. none;
  fetch_http = λ url. some outcome;
  tree_of = λ oid. some 7;
  diff_trees = λ from_tree tree. some (changes_of from_tree);
  checkout_between_trees = λ from_tree tree files. (true, tree + 1);
  opens = true;
  initialises = true;
  records_url = true;
}

abbrev full_disk : Git ℕ ℕ
full_disk = record remote { checkout_between_trees = λ from_tree tree files. (false, 3) }

abbrev empty : AppsDir ℕ
empty = record {
  is_occupied = false;
  has_git_dir = false;
  url = none;
  head = none;
  refs = [];
  files = 0;
}

abbrev stays_or_writes : Option ℕ → ℕ → ℕ → Bool × ℕ
stays_or_writes none tree files = (true, tree + 1)
stays_or_writes (some from_tree) tree files = (true, files)

clone_counts : (sync remote none true empty).0 ≡ ok (record no_counts { added = 1 })
unfolding sync fetch_and_checkout fetch tip_of advance checkout resolve_ref count_changes
    count_change text_eq
clone_counts = refl

occupied_refused :
    sync remote none true (record empty { is_occupied = true })
    ≡ (err target_occupied, record empty { is_occupied = true })
unfolding sync fetch_and_checkout
occupied_refused = refl

sync-IsSynced_example :
    Ends (λ counts t. IsSynced remote files_of t) (λ t. Unit {0}) (sync remote none true empty)
unfolding resolve_ref
sync-IsSynced_example =
    sync-IsSynced remote files_of
      (record { moves = λ from_tree tree files h. sym (ap (λ r. r.1) h) }) none true empty
      (λ url found branch fetched default. refl)

fetched_lem : fetch full_disk (codes "https://a/") ≡ ok outcome
unfolding fetch
fetched_lem = refl

found_lem : tip_of (codes "refs/remotes/origin/main") (main_update ∷ []) ≡ some (codes "a")
unfolding tip_of text_eq
found_lem = refl

from_lem : old_tree full_disk (resolve_ref (codes "refs/heads/main") []) ≡ ok none
unfolding resolve_ref
from_lem = refl

abbrev ahead : IsAhead full_disk (codes "https://a/") empty none 7
ahead = record {
  update = main_update;
  others = [];
  branch = codes "main";
  tip = codes "a";
  changes = changes_of none;
  fetched = fetched_lem;
  found = found_lem;
  from = from_lem;
  commit = refl;
  compared = refl;
}

fetch_and_checkout-not_repaired_example :
    ((fetch_and_checkout full_disk (codes "https://a/") empty).0 ≡ err not_checked_out)
    × (((fetch_and_checkout
            (once_more full_disk stays_or_writes)
            (codes "https://a/")
            (fetch_and_checkout full_disk (codes "https://a/") empty).1).0
          ≡ ok no_counts)
        × ((fetch_and_checkout
              (once_more full_disk stays_or_writes)
              (codes "https://a/")
              (fetch_and_checkout full_disk (codes "https://a/") empty).1).1.files
            ≡ 3))
fetch_and_checkout-not_repaired_example =
    fetch_and_checkout-not_repaired full_disk stays_or_writes (λ tree files. refl) (λ tree. refl)
      (codes "https://a/") empty none 7 3 ahead refl
