-- ===== src/Config/Sync/CheckedOut.antt =====
-- The checkout of `fetch_and_checkout` of src/config.rs: the branch and the files that it leaves.
use climate.Common.{
  Text, text_eq, text_eq_refl, retain, not, Option, none, some, ◌∷◌, Bool, true, false, ok, context,
  context-eq-ok, ◌≡◌, refl, ap, sym, ◌∙◌, arith,
}
use climate.Common.Error.{bad_commit, not_compared}
use climate.Common.Action.{
  Promises, Ends, asks, lift, modify, pure-Promises, asks-Promises, lift-Promises, modify-Promises,
  bind-Promises,
}
use climate.Config.Sync.{
  Git, AppsDir, resolve_ref, count_changes, no_counts, local_of, old_tree, checked_out, checkout,
  advance,
}

abbrev pub Same : {F : Type 0} → AppsDir F → AppsDir F → Type 0
Same s t = (t.refs ≡ s.refs) × ((t.files ≡ s.files) × (t.url ≡ s.url))

module _ {T F : Type 0} (git : Git T F) where
  abbrev tree_at : Option Text → Option T
  tree_at none = none
  tree_at (some oid) = git.tree_of oid

  -- A checkout that goes well turns the files of the one tree into those of the other.
  pub record IsCheckout (files_of : Option T → F) : Type 0 where
    pub moves :
        (from_tree : Option T) (tree : T) (files : F)
        → git.checkout_between_trees from_tree tree (files_of from_tree) ≡ (true, files)
        → files ≡ files_of (some tree)

  -- The files are those of the branch as it is recorded, or none are if it is not.
  abbrev pub IsAt : (Option T → F) → Text → AppsDir F → Type 0
  IsAt files_of branch s = s.files ≡ files_of (tree_at (resolve_ref (local_of branch) s.refs))

  old_tree-ok :
      (o : Option Text) (from_tree : Option T)
      → old_tree git o ≡ ok from_tree
      → from_tree ≡ tree_at o
  old_tree-ok none from_tree h = cc
  old_tree-ok (some oid) from_tree h = go (git.tree_of oid) refl
    where
      go : (t : Option T) → git.tree_of oid ≡ t → from_tree ≡ git.tree_of oid
      go none e = ground (arith, rw (e, old_tree) at h)
      go (some tree) e = ground (arith, rw (e, old_tree) at h)

  module _ (files_of : Option T → F) (law : IsCheckout files_of) (s : AppsDir F) where
    pub record Moved (branch tip : Text) (files : F) (t : AppsDir F) : Type 0 where
      pub head : t.head ≡ some (local_of branch)
      pub remote : t.url ≡ s.url
      pub recorded : resolve_ref (local_of branch) t.refs ≡ some tip
      pub same : t.files ≡ files

    -- Where the branch has moved, and the files are those of the tree that it had.
    pub record Done (branch tip : Text) (t : AppsDir F) : Type 0 where
      pub head : t.head ≡ some (local_of branch)
      pub remote : t.url ≡ s.url
      pub recorded : resolve_ref (local_of branch) t.refs ≡ some tip
      pub tree : T
      pub commit : git.tree_of tip ≡ some tree
      pub files : t.files ≡ files_of (some tree)

    checkout-Promises :
        (from_tree : Option T) (branch tip : Text)
        → Promises
            (Moved branch tip (files_of from_tree))
            (checkout git from_tree tip)
            (λ counts t. Done branch tip t)
            (λ t. Unit {0})
    unfolding checkout Ends
    checkout-Promises from_tree branch tip =
        bind-Promises
          (λ tree t. Moved branch tip (files_of from_tree) t × (git.tree_of tip ≡ some tree))
          (lift (context (git.tree_of tip) bad_commit)) _
          (lift-Promises _ (context (git.tree_of tip) bad_commit) (λ t p. tt)
            (λ t tree p e. (p, context-eq-ok (git.tree_of tip) bad_commit e)))
          (λ tree.
            bind-Promises
              (λ changes t. Moved branch tip (files_of from_tree) t × (git.tree_of tip ≡ some tree))
              (lift (context (git.diff_trees from_tree tree) not_compared)) _
              (lift-Promises _ (context (git.diff_trees from_tree tree) not_compared) (λ t p. tt)
                (λ t changes p e. p))
              (λ changes.
                bind-Promises (λ done t. Done branch tip t)
                  (λ t. checked_out git (git.checkout_between_trees from_tree tree t.files) t) _
                  (record {
                    ends =
                        λ t p. go tree t p (git.checkout_between_trees from_tree tree t.files) refl;
                  })
                  (λ done. pure-Promises _ _ (count_changes changes no_counts) (λ t p. p))))
      where
        go :
            (tree : T) (t : AppsDir F)
            → Moved branch tip (files_of from_tree) t × (git.tree_of tip ≡ some tree)
            → (out : Bool × F) → git.checkout_between_trees from_tree tree t.files ≡ out
            → Ends (λ done t'. Done branch tip t') (λ t'. Unit {0}) (checked_out git out t)
        go tree t p (true, files) e = record {
          head = p.0.head;
          remote = p.0.remote;
          recorded = p.0.recorded;
          tree = tree;
          commit = p.1;
          files = law.moves from_tree tree files (rw p.0.same at e);
        }
        go tree t p (false, files) e = tt

    pub advance-Promises :
        (branch tip : Text)
        → IsAt files_of branch s
        → Promises (Same s) (advance git branch tip) (λ counts t. Done branch tip t) (λ t. Unit {0})
    unfolding advance resolve_ref
    advance-Promises branch tip at_branch =
        bind-Promises
          (λ from_tree t. Same s t × (from_tree ≡ tree_at (resolve_ref (local_of branch) s.refs)))
          (asks (λ t. old_tree git (resolve_ref (local_of branch) t.refs))) _
          (asks-Promises _ _ (λ t p. tt)
            (λ t from_tree p e.
              (p, old_tree-ok (resolve_ref (local_of branch) s.refs) from_tree (rw p.0 at e))))
          (λ from_tree.
            bind-Promises
              (λ done t.
                (Same s t × (from_tree ≡ tree_at (resolve_ref (local_of branch) s.refs)))
                × (t.head ≡ some (local_of branch)))
              (modify (λ t. record t { head = some (local_of branch) })) _
              (modify-Promises _ (λ t. record t { head = some (local_of branch) })
                (λ t p. (p, refl)))
              (λ done.
                bind-Promises (λ done t. Moved branch tip (files_of from_tree) t)
                  (modify (λ t. record t {
                    refs =
                        (local_of branch, tip)
                        ∷ retain (λ r. not (text_eq r.0 (local_of branch))) t.refs;
                  }))
                  _
                  (modify-Promises _
                    (λ t. record t {
                      refs =
                          (local_of branch, tip)
                          ∷ retain (λ r. not (text_eq r.0 (local_of branch))) t.refs;
                    })
                    (λ t p. record {
                      head = p.1;
                      remote = p.0.0.1.1;
                      recorded = rw (text_eq_refl (local_of branch)) refl;
                      same = p.0.0.1.0 ∙ at_branch ∙ ap files_of (sym p.0.1);
                    }))
                  (λ done. checkout-Promises from_tree branch tip)))
