-- ===== src/Spec/Build/Contained.antt =====
-- What a container's specification holds the app to, and `check` against `build`.
use climate.Common.{
  ◌≢◌, starts_with, split, all, Bool-cases, inr, sym, ◌∙◌, text_eq_refl, Text, codes, not, Option,
  List, [], ◌∷◌, Bool, true, false, Result, ok, ◌>>◌, >>=-eq-ok, two_steps-eq-ok, guard, ◌≡◌, refl,
  ap, All, All-append, In, In-append_right, inl,
}
use climate.Common.Error.{Error, no_command}
use climate.Config.{Network, full, no_network, localhost, localnet, RunConfig, AppConfig}
use climate.Spec.Limits.{Float64, LinuxResources, resources}
use climate.Spec.Paths.{is_root, is_skipped}
use climate.Spec.Process.{ImageExecConfig, no_words, command}
use climate.Spec.Mounts.{
  Host, Mount, host_dir, check_host_dir, extra_mounts, added_mounts, mounts_for,
}
use climate.Spec.Mounts.Cover.{added_mounts-All, check_mounts-extra_mounts}
use climate.Spec.Build.{capabilities, Rootless, Spec, with_network, check, cwd_of, spec_with, build}

-- A path from the root on has a component that is neither empty nor a dot.
abbrev pub IsBelowRoot : Text → Type 0
IsBelowRoot path =
    starts_with path (codes "/") ≡ true
    → (c : Text) × In c (split b'/' path) × (c ≢ []) × (c ≢ codes ".")

some_unskipped :
    (fields : List Text)
    → all is_skipped fields ≡ false
    → (c : Text) × In c fields × (c ≢ []) × (c ≢ codes ".")
some_unskipped [] h = cc
some_unskipped (f ∷ fields) h = elim (Bool-cases (is_skipped f)) [
  | inl skipped ↦ let (c, i, e, d) = some_unskipped fields (rw skipped at h) in (c, inr i, e, d)
  | inr counts ↦ (f, inl refl, nil counts, dot counts)
]
  where
    nil : is_skipped f ≡ false → f ≡ [] → ⊥
    nil counts e = let bad : is_skipped [] ≡ false = sym (ap is_skipped e) ∙ counts in cc

    dot : is_skipped f ≡ false → f ≡ codes "." → ⊥
    dot counts e =
        let bad : is_skipped (codes ".") ≡ false = sym (ap is_skipped e) ∙ counts in
        let worse : true ≡ false = rw (text_eq_refl (codes ".")) at bad in cc

is_root-IsBelowRoot : (path : Text) → is_root path ≡ false → IsBelowRoot path
unfolding is_root
is_root-IsBelowRoot path h absolute = some_unskipped (split b'/' path) (rw absolute at h)

All-IsBelowRoot :
    (ms : List Mount) → All (λ m. is_root m.source ≡ false) ms → All (λ m. IsBelowRoot m.source) ms
All-IsBelowRoot [] h = tt
All-IsBelowRoot (m ∷ ms) h = (is_root-IsBelowRoot m.source h.0, All-IsBelowRoot ms h.1)

-- The app gets what its definition asks for and no more.
pub record IsContained {K : Type 0} (run : RunConfig K) (rootless : Rootless) (root : Text)
    (s : Spec K) : Type 0 where
  pub rooted : s.root ≡ root
  pub starts : no_words s.args ≡ false
  pub private : (run.network ≡ full → ⊥) → In (codes "network") s.namespaces
  pub shared : run.network ≡ full → s.namespaces ≡ rootless.namespaces
  pub bounding : s.capabilities.bounding ≡ run.capabilities
  pub effective : s.capabilities.effective ≡ run.capabilities
  pub inheritable : s.capabilities.inheritable ≡ run.capabilities
  pub permitted : s.capabilities.permitted ≡ run.capabilities
  pub ambient : s.capabilities.ambient ≡ run.capabilities
  pub no_new_privileges : s.no_new_privileges ≡ true
  pub mounts : All (λ m. IsBelowRoot m.source) s.mounts

with_network-In :
    (network : Network) (namespaces : List Text)
    → (network ≡ full → ⊥)
    → In (codes "network") (with_network network namespaces)
with_network-In full namespaces h = absurd (h refl)
with_network-In no_network namespaces h =
    In-append_right (codes "network") namespaces (codes "network" ∷ []) (inl refl)
with_network-In localhost namespaces h =
    In-append_right (codes "network") namespaces (codes "network" ∷ []) (inl refl)
with_network-In localnet namespaces h =
    In-append_right (codes "network") namespaces (codes "network" ∷ []) (inl refl)

module _ {D F K : Type 0} (host : Host D) (float : Float64 F) (cfg : AppConfig F K) where
  module _ (var : Text → Option Text) (rootless : Rootless) (systemd : Bool)
      (image : Option ImageExecConfig) (root : Text) (user_args : List Text) (tty : Bool) where
    -- What a build that succeeds has gone through.
    record Built (disk : D) (r : D × Spec K) : Type 0 where
      cwd : Text
      mounts : D × List Mount
      limits : Option LinuxResources
      starts : no_words (command cfg.run image user_args) ≡ false
      added : added_mounts host disk cfg.run ≡ ok mounts
      limited : resources float cfg.limits ≡ ok limits
      made : r ≡ (
        mounts.0,
        spec_with host float cfg var rootless systemd image root user_args tty cwd mounts.1 limits,
      )

    guard-eq-ok :
        (b : Bool) (e : Error) (k : Result Error (D × Spec K)) (r : D × Spec K)
        → (guard (not b) e >> k) ≡ ok r
        → (b ≡ false) × (k ≡ ok r)
    guard-eq-ok true e k r h = cc
    guard-eq-ok false e k r h = (refl, h)

    build-Built :
        (disk : D) (r : D × Spec K)
        → build host float cfg var rootless systemd image root user_args tty disk ≡ ok r
        → Built disk r
    unfolding build
    build-Built disk r h =
        let (starts, h1) =
          guard-eq-ok (no_words (command cfg.run image user_args)) (no_command cfg.app.name) _ r
            h in
        let (dir, e, h2) = >>=-eq-ok (host_dir host cfg.run) _ h1 in
        let (cwd, e1, h3) = >>=-eq-ok (cwd_of host float cfg dir image) _ h2 in
        let (mounts, limits, added, limited, made) =
          two_steps-eq-ok (added_mounts host disk cfg.run) (resources float cfg.limits)
            (λ mounts limits. (
              mounts.0,
              spec_with host float cfg var rootless systemd image root user_args tty cwd mounts.1
                  limits,
            ))
            h3 in
        record {
          cwd = cwd;
          mounts = mounts;
          limits = limits;
          starts = starts;
          added = added;
          limited = limited;
          made = made;
        }

    -- A definition that a container can be built from passes `check`.
    pub check-build :
        (disk : D) (r : D × Spec K)
        → build host float cfg var rootless systemd image root user_args tty disk ≡ ok r
        → check host float cfg ≡ ok tt
    unfolding check added_mounts
    check-build disk r h =
        let built = build-Built disk r h in
        let (dir, shares, e, e1, made) =
          two_steps-eq-ok (host_dir host cfg.run) (extra_mounts host disk cfg.run)
            (λ dir shares. (shares.0, mounts_for host cfg.run dir shares)) built.added in
        rw built.limited (check_mounts-extra_mounts host cfg.run disk shares e1)

    -- A container is held to its definition: it has the root filesystem that it is given, each capability
    -- set is the definition's list, the network is a namespace of its own unless the definition asks for
    -- the host's, in which case the namespaces are those that the specification starts from, there is a
    -- command to start, and no mount has a source that is written as the root directory, with nothing but
    -- slashes and dots. A source that leads there by `..` or a symlink is not told apart. The working
    -- directory has passed its check, and no mount that the specification starts from has such a source.
    pub build-IsContained :
        (disk : D) (r : D × Spec K)
        → All (λ m. IsBelowRoot m.source) rootless.mounts
        → check_host_dir host cfg.run ≡ ok tt
        → build host float cfg var rootless systemd image root user_args tty disk ≡ ok r
        → IsContained cfg.run rootless root r.1
    unfolding capabilities
    build-IsContained disk r harmless checked h =
        let built = build-Built disk r h in
        rw built.made (record {
          starts = built.starts;
          rooted = refl;
          private = with_network-In cfg.run.network rootless.namespaces;
          shared = λ e. ap (λ n. with_network n rootless.namespaces) e;
          bounding = refl;
          effective = refl;
          inheritable = refl;
          permitted = refl;
          ambient = refl;
          no_new_privileges = refl;
          mounts = All-append _ rootless.mounts built.mounts.1 harmless (
              All-IsBelowRoot built.mounts.1
                (added_mounts-All host cfg.run disk built.mounts checked built.added));
        })
