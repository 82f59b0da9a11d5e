-- ===== src/Seccomp/Decision.antt =====
-- What the profile decides about a syscall, against the two keys of the definition, the capabilities
-- that the app asks for, and the tables.
use climate.Common.{
  Text, codes, text_in, text_in-append, text_eq, text_eq_iff, remove_text, retain, all, all-In,
  any-In, not, ◌&&◌, ◌||◌, List, [], ◌∷◌, ◌++◌, Bool, true, false, ◌≡◌, refl, sym, ap, ◌∙◌, arith,
  Bool-cases, inl, inr, In,
}
use climate.Seccomp.{
  insert_name, extend, allow_names, deny_names, Verdict, grant, holds, Capabilities, Named,
  drop_covered, Rule, Target, verdict, on_x86_64, on_aarch64, on_other, arch_allowed,
  allowed_syscalls, capability_syscalls, partial_rules,
}
use climate.Seccomp.Sets.{
  text_eq_comm, IsAscending-nil, text_in-insert_name, text_in-extend, text_in-remove_text,
  IsAscending, insert_name-IsAscending, extend-IsAscending, retain-IsAscending,
}
use climate.Config.{RunConfig}

-- Whether a capability that the app asks for carries the syscall.
unfoldable pub is_granted :
    {K : Type 0} → Capabilities K → RunConfig K → List (Named × List Text) → Text → Bool
is_granted caps run [] n = false
is_granted caps run ((capability, syscalls) ∷ rest) n =
    holds caps run capability && text_in syscalls n || is_granted caps run rest n

-- Whether every app may make the syscall.
unfoldable pub is_built_in : Target → Text → Bool
is_built_in target n = text_in (allowed_syscalls ++ arch_allowed target) n

text_in-grant :
    {K : Type 0} (caps : Capabilities K) (run : RunConfig K) (table : List (Named × List Text))
    (set : List Text) (n : Text)
    → text_in (grant caps run table set) n ≡ (is_granted caps run table n || text_in set n)
unfolding grant is_granted
text_in-grant caps run [] set n = refl
text_in-grant caps run ((capability, syscalls) ∷ rest) set n =
    elim (Bool-cases (holds caps run capability)) [
      | inl asked ↦ rw asked (
          ground (
            arith,
            text_in-grant caps run rest (extend syscalls set) n,
            text_in-extend n syscalls set,
          ))
      | inr absent ↦ rw absent (text_in-grant caps run rest set n)
    ]

module _ {S : Type 0} where
  text_in-allow_names :
      (names : List Text) (v : Verdict S) (n : Text)
      → text_in (allow_names names v).allowed n ≡ (text_in names n || text_in v.allowed n)
  unfolding allow_names
  text_in-allow_names [] v n = refl
  text_in-allow_names (m ∷ names) v n = ground (
    arith,
    text_in-allow_names names
        (record { allowed = insert_name m v.allowed; partial = drop_covered m v.partial }) n,
    text_in-insert_name n m v.allowed,
  )

  text_in-deny_names :
      (names : List Text) (v : Verdict S) (n : Text)
      → text_in (deny_names names v).allowed n ≡ (not (text_in names n) && text_in v.allowed n)
  unfolding deny_names
  text_in-deny_names [] v n = refl
  text_in-deny_names (m ∷ names) v n = ground (
    arith,
    text_in-deny_names names
        (record { allowed = remove_text m v.allowed; partial = drop_covered m v.partial }) n,
    text_in-remove_text n m v.allowed,
  )

  abbrev pub uncovered : List Text → List (Text × Rule S) → List (Text × Rule S)
  uncovered names rules = retain (λ r. not (text_in names r.0)) rules

  uncovered-drop_covered :
      (m : Text) (names : List Text) (rules : List (Text × Rule S))
      → uncovered names (drop_covered m rules) ≡ uncovered (m ∷ names) rules
  uncovered-drop_covered m names [] = refl
  uncovered-drop_covered m names (r ∷ rules) = elim (Bool-cases (text_eq r.0 m)) [
    | inl same ↦ ground (arith, uncovered-drop_covered m names rules, text_eq_comm r.0 m)
    | inr other ↦ ground (arith, uncovered-drop_covered m names rules, text_eq_comm r.0 m)
  ]

  uncovered-nil : (rules : List (Text × Rule S)) → uncovered [] rules ≡ rules
  uncovered-nil [] = refl
  uncovered-nil (r ∷ rules) = ap (λ rs. r ∷ rs) (uncovered-nil rules)

  uncovered-append :
      (a b : List Text) (rules : List (Text × Rule S))
      → uncovered b (uncovered a rules) ≡ uncovered (a ++ b) rules
  uncovered-append a b [] = refl
  uncovered-append a b (r ∷ rules) = elim (Bool-cases (text_in a r.0)) [
    | inl covered ↦ ground (arith, uncovered-append a b rules, text_in-append a b r.0)
    | inr free ↦ ground (arith, uncovered-append a b rules, text_in-append a b r.0)
  ]

  partial-allow_names :
      (names : List Text) (v : Verdict S)
      → (allow_names names v).partial ≡ uncovered names v.partial
  unfolding allow_names
  partial-allow_names [] v = sym (uncovered-nil v.partial)
  partial-allow_names (m ∷ names) v =
      partial-allow_names names
        (record { allowed = insert_name m v.allowed; partial = drop_covered m v.partial })
      ∙ uncovered-drop_covered m names v.partial

  partial-deny_names :
      (names : List Text) (v : Verdict S) → (deny_names names v).partial ≡ uncovered names v.partial
  unfolding deny_names
  partial-deny_names [] v = sym (uncovered-nil v.partial)
  partial-deny_names (m ∷ names) v =
      partial-deny_names names
        (record { allowed = remove_text m v.allowed; partial = drop_covered m v.partial })
      ∙ uncovered-drop_covered m names v.partial

  allow_names-IsAscending :
      (names : List Text) (v : Verdict S)
      → IsAscending v.allowed
      → IsAscending (allow_names names v).allowed
  unfolding allow_names
  allow_names-IsAscending [] v a = a
  allow_names-IsAscending (m ∷ names) v a =
      allow_names-IsAscending names
        (record { allowed = insert_name m v.allowed; partial = drop_covered m v.partial })
        (insert_name-IsAscending m v.allowed a)

  deny_names-IsAscending :
      (names : List Text) (v : Verdict S)
      → IsAscending v.allowed
      → IsAscending (deny_names names v).allowed
  unfolding deny_names
  deny_names-IsAscending [] v a = a
  deny_names-IsAscending (m ∷ names) v a =
      deny_names-IsAscending names
        (record { allowed = remove_text m v.allowed; partial = drop_covered m v.partial })
        (retain-IsAscending (λ u. not (text_eq u m)) v.allowed a)

grant-IsAscending :
    {K : Type 0} (caps : Capabilities K) (run : RunConfig K) (table : List (Named × List Text))
    (set : List Text)
    → IsAscending set
    → IsAscending (grant caps run table set)
unfolding grant
grant-IsAscending caps run [] set a = a
grant-IsAscending caps run ((capability, syscalls) ∷ rest) set a =
    elim (Bool-cases (holds caps run capability)) [
      | inl asked ↦ rw asked (
          grant-IsAscending caps run rest (extend syscalls set) (extend-IsAscending syscalls set a))
      | inr absent ↦ rw absent (grant-IsAscending caps run rest set a)
    ]

module _ {K : Type 0} (S : Type 0) (caps : Capabilities K) (target : Target)
    (run : RunConfig K) where
  -- A syscall is allowed outright exactly if the app does not deny it, and allows it, is given it
  -- with a capability, or every app may make it.
  pub text_in-verdict :
      (n : Text)
      → text_in (verdict {S = S} caps target run).allowed n ≡ (
          not (text_in run.seccomp_deny n)
          && (text_in run.seccomp_allow n
              || (is_granted caps run capability_syscalls n || is_built_in target n)))
  unfolding verdict is_built_in
  text_in-verdict n =
      let base = extend (allowed_syscalls ++ arch_allowed target) [] in
      let granted = grant caps run capability_syscalls base in
      let start : Verdict S = record { allowed = granted; partial = partial_rules target } in
      let widened = allow_names run.seccomp_allow start in
      ground (
        arith,
        text_in-deny_names run.seccomp_deny widened n,
        text_in-allow_names run.seccomp_allow start n,
        text_in-grant caps run capability_syscalls base n,
        text_in-extend n (allowed_syscalls ++ arch_allowed target) [],
      )

  -- A partial rule is kept exactly if neither key of the app's definition names its syscall.
  pub partial-verdict :
      (verdict caps target run).partial
      ≡ uncovered (run.seccomp_allow ++ run.seccomp_deny) (partial_rules {S = S} target)
  unfolding verdict
  partial-verdict =
      let base = extend (allowed_syscalls ++ arch_allowed target) [] in
      let start : Verdict S = record {
        allowed = grant caps run capability_syscalls base;
        partial = partial_rules target;
      } in
      partial-deny_names run.seccomp_deny (allow_names run.seccomp_allow start)
      ∙ (ap (uncovered run.seccomp_deny) (partial-allow_names run.seccomp_allow start)
          ∙ uncovered-append run.seccomp_allow run.seccomp_deny (partial_rules target))

  -- Each syscall is on the list once.
  pub verdict-IsAscending : IsAscending (verdict {S = S} caps target run).allowed
  unfolding verdict
  verdict-IsAscending =
      let base = extend (allowed_syscalls ++ arch_allowed target) [] in
      let start : Verdict S = record {
        allowed = grant caps run capability_syscalls base;
        partial = partial_rules target;
      } in
      deny_names-IsAscending run.seccomp_deny (allow_names run.seccomp_allow start) (
        allow_names-IsAscending run.seccomp_allow start (
          grant-IsAscending caps run capability_syscalls base
            (extend-IsAscending (allowed_syscalls ++ arch_allowed target) [] IsAscending-nil)))

-- The syscalls that have partial rules.
abbrev pub guarded : List Text
guarded =
    codes "clone" ∷ codes "unshare" ∷ codes "clone3" ∷ codes "socket" ∷ codes "personality" ∷ []

abbrev pub syscalls_of : List (Named × List Text) → List Text
syscalls_of [] = []
syscalls_of ((capability, syscalls) ∷ rest) = syscalls ++ syscalls_of rest

pub is_granted-listed :
    {K : Type 0} (caps : Capabilities K) (run : RunConfig K) (table : List (Named × List Text))
    (n : Text)
    → text_in (syscalls_of table) n ≡ false
    → is_granted caps run table n ≡ false
unfolding is_granted
is_granted-listed caps run [] n h = refl
is_granted-listed caps run ((capability, syscalls) ∷ rest) n h =
    ground (arith, text_in-append syscalls (syscalls_of rest) n, is_granted-listed caps run rest n)

guarded-all :
    (target : Target)
    → all (λ n. not (is_built_in target n || text_in (syscalls_of capability_syscalls) n)) guarded
      ≡ true
unfolding is_built_in allowed_syscalls arch_allowed text_eq capability_syscalls
guarded-all on_x86_64 = refl
guarded-all on_aarch64 = refl
guarded-all on_other = refl

capability-all :
    (target : Target)
    → all (λ n. not (is_built_in target n)) (syscalls_of capability_syscalls) ≡ true
unfolding is_built_in allowed_syscalls arch_allowed text_eq capability_syscalls
capability-all on_x86_64 = refl
capability-all on_aarch64 = refl
capability-all on_other = refl

module _ {K : Type 0} (S : Type 0) (caps : Capabilities K) (target : Target)
    (run : RunConfig K) where
  -- A syscall that has partial rules, such as clone, is never allowed outright unless the app allows it
  -- itself: no table and no capability opens it.
  pub verdict-guarded :
      (n : Text)
      → In n guarded
      → text_in run.seccomp_allow n ≡ false
      → text_in (verdict {S = S} caps target run).allowed n ≡ false
  verdict-guarded n i absent =
      let free =
        all-In (λ n. not (is_built_in target n || text_in (syscalls_of capability_syscalls) n))
          guarded (guarded-all target) n i in
      ground (
        arith,
        text_in-verdict S caps target run n,
        is_granted-listed caps run capability_syscalls n,
      )

  -- A syscall that belongs to a capability is allowed exactly if the app does not deny it and allows it
  -- or asks for such a capability.
  pub verdict-capability :
      (n : Text)
      → text_in (syscalls_of capability_syscalls) n ≡ true
      → text_in (verdict {S = S} caps target run).allowed n ≡ (
          not (text_in run.seccomp_deny n)
          && (text_in run.seccomp_allow n || is_granted caps run capability_syscalls n))
  verdict-capability n listed =
      let (m, i, same) = any-In (λ u. text_eq u n) (syscalls_of capability_syscalls) listed in
      let e : m ≡ n = (text_eq_iff m n).0 same in
      let free =
        all-In (λ n. not (is_built_in target n)) (syscalls_of capability_syscalls)
          (capability-all target) m i in
      let outside : not (is_built_in target n) ≡ true = rw (← e) free in
      ground (arith, text_in-verdict S caps target run n)
