-- ===== src/Config/Sync/Retried.antt =====
-- A sync after one that failed at the checkout, of `fetch_and_checkout` in src/config.rs.
use climate.Common.{
  Text, text_eq_refl, Option, some, List, [], ◌∷◌, Bool, true, false, ok, err, ◌≡◌, refl,
}
use climate.Common.Error.{not_checked_out}
use climate.Config.Sync.{
  Update, Change, Git, AppsDir, resolve_ref, count_changes, no_counts, tip_of, tracking_of,
  local_of, fetch, old_tree, checkout, advance, fetch_and_checkout,
}

module _ {T F : Type 0} (git : Git T F) where
  -- The same remote and the same repository, where a checkout does what `works` says.
  abbrev pub once_more : (Option T → T → F → Bool × F) → Git T F
  once_more works = record git { checkout_between_trees = works }

  -- A remote whose default branch stands at `tip`, in a directory where that branch was at `from_tree`.
  pub record IsAhead (url : Text) (s : AppsDir F) (from_tree : Option T) (tree : T) : Type 0 where
    pub update : Update
    pub others : List Update
    pub branch : Text
    pub tip : Text
    pub changes : List Change
    pub fetched :
        fetch git url ≡ ok (record { updates = update ∷ others; default_branch = some branch })
    pub found : tip_of (tracking_of branch) (update ∷ others) ≡ some tip
    pub from : old_tree git (resolve_ref (local_of branch) s.refs) ≡ ok from_tree
    pub commit : git.tree_of tip ≡ some tree
    pub compared : git.diff_trees from_tree tree ≡ some changes

  -- Where a comparison of a tree with itself finds nothing, and where a checkout from a tree to itself
  -- goes well and leaves the files: a sync whose checkout fails reports the failure, and the next sync of
  -- the same commit goes well with nothing added, changed or removed, and leaves the files as the failed
  -- checkout left them.
  pub fetch_and_checkout-not_repaired :
      (works : Option T → T → F → Bool × F)
      → ((tree : T) (files : F) → works (some tree) tree files ≡ (true, files))
      → ((tree : T) → git.diff_trees (some tree) tree ≡ some [])
      → (url : Text) (s : AppsDir F) (from_tree : Option T) (tree : T) (files : F)
      → IsAhead url s from_tree tree
      → git.checkout_between_trees from_tree tree s.files ≡ (false, files)
      → let t = (fetch_and_checkout git url s).1 in
        ((fetch_and_checkout git url s).0 ≡ err not_checked_out)
        × (((fetch_and_checkout (once_more works) url t).0 ≡ ok no_counts)
            × ((fetch_and_checkout (once_more works) url t).1.files ≡ files))
  unfolding fetch_and_checkout advance checkout fetch resolve_ref count_changes
  fetch_and_checkout-not_repaired works stays same url s from_tree tree files h fails =
      rw
        (
          h.fetched,
          h.found,
          h.from,
          h.commit,
          h.compared,
          fails,
          text_eq_refl (local_of h.branch),
          h.commit,
          same tree,
          stays tree files,
        )
        (refl, (refl, refl))
