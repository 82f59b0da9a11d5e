-- ===== src/Config/Sync/Synced.antt =====
-- What `sync` of src/config.rs leaves: the files of the commit that the remote has.
use climate.Common.{
  Text, not, if◌then◌else◌, Option, some, Bool, true, false, ok, guard, context, context-eq-ok, ◌≡◌,
  refl, ap, ◌∙◌,
}
use climate.Common.Error.{
  no_branches, no_tip, no_default_branch, no_remote_url, not_opened, not_initialised,
  target_occupied,
}
use climate.Common.Action.{
  ◌>>◌, Promises, Ends, asks, lift, modify, ◌>>=◌, asks-Promises, lift-Promises, modify-Promises,
  bind-Promises, Promises-weaken,
}
use climate.Config.Sync.{
  FetchOutcome, Git, AppsDir, resolve_ref, tip_of, no_updates, tracking_of, local_of, fetch,
  advance, fetch_and_checkout, or_default, clone, pull_again, sync,
}
use climate.Config.Sync.CheckedOut.{IsCheckout, IsAt, Same, advance-Promises}

module _ {T F : Type 0} (git : Git T F) where
  -- The branch that the remote has as its default stands at the commit that it has there, it is the one
  -- that is checked out, and the files are those of that commit.
  pub record IsSynced (files_of : Option T → F) (s : AppsDir F) : Type 0 where
    pub url : Text
    pub outcome : FetchOutcome
    pub branch : Text
    pub tip : Text
    pub tree : T
    pub remote : s.url ≡ some url
    pub fetched : fetch git url ≡ ok outcome
    pub default : outcome.default_branch ≡ some branch
    pub found : tip_of (tracking_of branch) outcome.updates ≡ some tip
    pub head : s.head ≡ some (local_of branch)
    pub recorded : resolve_ref (local_of branch) s.refs ≡ some tip
    pub commit : git.tree_of tip ≡ some tree
    pub files : s.files ≡ files_of (some tree)

  -- The files are at the branch that the remote has as its default, whichever that turns out to be.
  abbrev IsAtDefault : (Option T → F) → AppsDir F → Text → Type 0
  IsAtDefault files_of s url =
      (outcome : FetchOutcome) (branch : Text)
      → fetch git url ≡ ok outcome
      → outcome.default_branch ≡ some branch
      → IsAt git files_of branch s

  module _ (files_of : Option T → F) (law : IsCheckout git files_of) (s : AppsDir F) where
    fetch_and_checkout-Promises :
        (url : Text)
        → s.url ≡ some url
        → IsAtDefault files_of s url
        → Promises
            (Same s)
            (fetch_and_checkout git url)
            (λ counts t. IsSynced files_of t)
            (λ t. Unit {0})
    unfolding fetch_and_checkout
    fetch_and_checkout-Promises url at_url at_default =
        bind-Promises (λ outcome t. Same s t × (fetch git url ≡ ok outcome)) (lift (fetch git url))
          _ (lift-Promises _ (fetch git url) (λ t p. tt) (λ t outcome p e. (p, e)))
          (λ outcome.
            bind-Promises (λ done t. Same s t × (fetch git url ≡ ok outcome))
              (lift (guard (not (no_updates outcome.updates)) (no_branches url))) _
              (lift-Promises _ (guard (not (no_updates outcome.updates)) (no_branches url))
                (λ t p. tt) (λ t done p e. p))
              (λ done.
                bind-Promises
                  (λ branch t.
                    (Same s t × (fetch git url ≡ ok outcome))
                    × (outcome.default_branch ≡ some branch))
                  (lift (context outcome.default_branch no_default_branch)) _
                  (lift-Promises _ (context outcome.default_branch no_default_branch) (λ t p. tt)
                    (λ t branch p e. (p, context-eq-ok outcome.default_branch no_default_branch e)))
                  (λ branch. tip_step outcome branch)))
      where
        tip_step :
            (outcome : FetchOutcome) (branch : Text)
            → Promises
                (λ t.
                  (Same s t × (fetch git url ≡ ok outcome))
                  × (outcome.default_branch ≡ some branch))
                (lift (context (tip_of (tracking_of branch) outcome.updates) (no_tip branch))
                  >>= λ tip. advance git branch tip)
                (λ counts t. IsSynced files_of t)
                (λ t. Unit {0})
        tip_step outcome branch =
            bind-Promises
              (λ tip t.
                ((Same s t × (fetch git url ≡ ok outcome)) × (outcome.default_branch ≡ some branch))
                × (tip_of (tracking_of branch) outcome.updates ≡ some tip))
              (lift (context (tip_of (tracking_of branch) outcome.updates) (no_tip branch))) _
              (lift-Promises _
                (context (tip_of (tracking_of branch) outcome.updates) (no_tip branch)) (λ t p. tt)
                (λ t tip p e. (
                  p,
                  context-eq-ok (tip_of (tracking_of branch) outcome.updates) (no_tip branch) e,
                )))
              (λ tip. record {
                ends = λ t p.
                    (Promises-weaken (advance git branch tip)
                        (advance-Promises git files_of law s branch tip
                          (at_default outcome branch p.0.0.1 p.0.1))
                        (λ t' counts q. record {
                          url = url;
                          outcome = outcome;
                          branch = branch;
                          tip = tip;
                          tree = q.tree;
                          fetched = p.0.0.1;
                          default = p.0.1;
                          found = p.1;
                          remote = q.remote ∙ at_url;
                          head = q.head;
                          recorded = q.recorded;
                          commit = q.commit;
                          files = q.files;
                        })
                        (λ t' q. tt)).ends
                      t p.0.0.0;
              })

  module _ (files_of : Option T → F) (law : IsCheckout git files_of) (s : AppsDir F)
      (at_default : (url : Text) → IsAtDefault files_of s url) where
    pull_again-Promises :
        Promises (λ t. t ≡ s) (pull_again git) (λ counts t. IsSynced files_of t) (λ t. Unit {0})
    pull_again-Promises =
        bind-Promises (λ done t. t ≡ s) (lift (guard git.opens not_opened)) _
          (lift-Promises _ (guard git.opens not_opened) (λ t p. tt) (λ t done p e. p))
          (λ done.
            bind-Promises (λ url t. (t ≡ s) × (s.url ≡ some url))
              (asks (λ t. context t.url no_remote_url)) _
              (asks-Promises _ _ (λ t p. tt)
                (λ t url p e. (p, context-eq-ok s.url no_remote_url (rw p at e))))
              (λ url. record {
                ends = λ t p.
                    (fetch_and_checkout-Promises files_of law s url p.1 (at_default url)).ends t
                      (ap (λ t'. t'.refs) p.0, (ap (λ t'. t'.files) p.0, ap (λ t'. t'.url) p.0));
              }))

    abbrev named : Text → AppsDir F → AppsDir F
    named url t = record t { url = some url }

    record_and_fetch :
        (url : Text)
        → Promises
            (λ t. (t.refs ≡ s.refs) × (t.files ≡ s.files))
            (lift (guard git.records_url not_initialised)
              >> (modify (named url) >> fetch_and_checkout git url))
            (λ counts t. IsSynced files_of t)
            (λ t. Unit {0})
    record_and_fetch url =
        bind-Promises (λ done t. (t.refs ≡ s.refs) × (t.files ≡ s.files))
          (lift (guard git.records_url not_initialised)) _
          (lift-Promises _ (guard git.records_url not_initialised) (λ t p. tt) (λ t done p e. p))
          (λ done.
            bind-Promises (λ done t. Same (named url s) t) (modify (named url)) _
              (modify-Promises _ (named url) (λ t p. (p.0, (p.1, refl))))
              (λ done.
                fetch_and_checkout-Promises files_of law (named url s) url refl (at_default url)))

    clone-Promises :
        (apps_url : Option Text)
        → Promises
            (λ t. t ≡ s)
            (clone git apps_url)
            (λ counts t. IsSynced files_of t)
            (λ t. Unit {0})
    clone-Promises apps_url =
        bind-Promises (λ occupied t. t ≡ s) (asks (λ t. ok t.is_occupied)) _
          (asks-Promises _ _ (λ t p. tt) (λ t occupied p e. p))
          (λ occupied.
            bind-Promises (λ done t. t ≡ s) (lift (guard (not occupied) target_occupied)) _
              (lift-Promises _ (guard (not occupied) target_occupied) (λ t p. tt) (λ t done p e. p))
              (λ done.
                bind-Promises (λ done' t. t ≡ s) (lift (guard git.initialises not_initialised)) _
                  (lift-Promises _ (guard git.initialises not_initialised) (λ t p. tt)
                    (λ t done' p e. p))
                  (λ done'.
                    bind-Promises (λ done'' t. (t.refs ≡ s.refs) × (t.files ≡ s.files))
                      (modify (λ t. record t { is_occupied = true; has_git_dir = true })) _
                      (modify-Promises _ (λ t. record t { is_occupied = true; has_git_dir = true })
                        (λ t p. (ap (λ t'. t'.refs) p, ap (λ t'. t'.files) p)))
                      (λ done''. record_and_fetch (or_default git apps_url)))))

  -- A sync that goes well has fetched from the remote that is recorded in the directory, has its default
  -- branch checked out at the commit that the remote has for it, and leaves exactly that commit's files.
  -- It is asked for that a checkout that goes well turns the files of one tree into those of the other,
  -- and that before the sync the files are those of the local branch of the same name, or none if there
  -- is no such branch.
  pub sync-IsSynced :
      (files_of : Option T → F)
      → IsCheckout git files_of
      → (apps_url : Option Text) (target : Bool) (s : AppsDir F)
      → ((url : Text) → IsAtDefault files_of s url)
      → Ends (λ counts t. IsSynced files_of t) (λ t. Unit {0}) (sync git apps_url target s)
  unfolding sync Ends
  sync-IsSynced files_of law apps_url false s at_default = tt
  sync-IsSynced files_of law apps_url true s at_default = go s.has_git_dir
    where
      go :
          (there : Bool)
          → Ends
              (λ counts t. IsSynced files_of t)
              (λ t. Unit {0})
              ((if there then pull_again git else clone git apps_url) s)
      go true = (pull_again-Promises files_of law s at_default).ends s refl
      go false = (clone-Promises files_of law s at_default apps_url).ends s refl
