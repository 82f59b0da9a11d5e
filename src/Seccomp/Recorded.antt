-- ===== src/Seccomp/Recorded.antt =====
-- The policy that `profile` compiles, seen through what the seacomb package records: the reference is
-- the list of its rules, written down without the calls that make it.
use climate.Common.{
  false, refl, Text, context-eq-ok, List, [], ◌∷◌, ◌++◌, map, Option, none, some, ok, ◌>>=◌,
  >>=-eq-ok, context, append_assoc, append-nil, ◌≡◌, sym, ap, ◌∙◌,
}
use climate.Common.Error.{policy_refused, unknown_syscall, rule_refused}
use climate.Seccomp.{
  errno, allow, found, always, x86_64, x86, aarch64, arm, on_x86_64, on_aarch64, on_other, Action,
  Arch, Rule, Seacomb, Capabilities, Target, Verdict, verdict, outright, refuse, architectures,
  add_archs, add_allowed, add_partial, profile,
}
use climate.Config.{RunConfig}

-- What was asked of a policy, in order.
pub record Asked (S : Type 0) : Type 0 where
  pub otherwise : Action
  pub archs : List Arch
  pub bad_arch : Option Action
  pub rules : List (Rule S)

abbrev pub with_archs : {S : Type 0} → Asked S → List Arch → Asked S
with_archs a archs = record a { archs = a.archs ++ archs }

abbrev pub with_bad_arch : {S : Type 0} → Asked S → Action → Asked S
with_bad_arch a action = record a { bad_arch = some action }

abbrev pub with_rules : {S : Type 0} → Asked S → List (Rule S) → Asked S
with_rules a rules = record a { rules = a.rules ++ rules }

-- A policy keeps what was asked of it, where it does not refuse.
pub record Records {P S : Type 0} (seacomb : Seacomb P S) : Type 0 where
  pub view : P → Asked S
  pub view-create :
      (action : Action) (p : P)
      → seacomb.create action ≡ some p
      → view p ≡ record { otherwise = action; archs = []; bad_arch = none; rules = [] }
  pub view-add_arch :
      (p q : P) (arch : Arch)
      → seacomb.add_arch p arch ≡ some q
      → view q ≡ with_archs (view p) (arch ∷ [])
  pub view-on_bad_arch :
      (p q : P) (action : Action)
      → seacomb.on_bad_arch p action ≡ some q
      → view q ≡ with_bad_arch (view p) action
  pub view-add :
      (p q : P) (rule : Rule S)
      → seacomb.add p rule ≡ some q
      → view q ≡ with_rules (view p) (rule ∷ [])

-- The syscalls of the names, where each is one.
pub LookupAll : {S : Type 0} → (Text → Option S) → List Text → List S → Type 0
LookupAll lookup [] [] = Unit
LookupAll lookup [] (s ∷ ss) = ⊥
LookupAll lookup (n ∷ ns) [] = ⊥
LookupAll lookup (n ∷ ns) (s ∷ ss) = (lookup n ≡ some s) × LookupAll lookup ns ss

module _ {P S : Type 0} (seacomb : Seacomb P S) (keeps : Records seacomb) where
  view-add_archs :
      (archs : List Arch) (p q : P)
      → add_archs seacomb archs p ≡ ok q
      → keeps.view q ≡ with_archs (keeps.view p) archs
  unfolding add_archs
  view-add_archs [] p q h =
      let same : p ≡ q = cc in
      sym (ap keeps.view same)
      ∙ ap (λ xs. record (keeps.view p) { archs = xs }) (sym (append-nil (keeps.view p).archs))
  view-add_archs (arch ∷ archs) p q h =
      let (mid, e, more) =
        >>=-eq-ok (context (seacomb.add_arch p arch) policy_refused)
          (λ p'. add_archs seacomb archs p') h in
      let step =
        keeps.view-add_arch p mid arch (context-eq-ok (seacomb.add_arch p arch) policy_refused e) in
      view-add_archs archs mid q more
      ∙ (ap (λ a. with_archs a archs) step
          ∙ ap (λ xs. record (keeps.view p) { archs = xs })
              (append_assoc (keeps.view p).archs (arch ∷ []) archs))

  with_rules-with_rules :
      (a : Asked S) (x y : List (Rule S)) → with_rules (with_rules a x) y ≡ with_rules a (x ++ y)
  with_rules-with_rules a x y = ap (λ xs. record a { rules = xs }) (append_assoc a.rules x y)

  with_rules-nil : (a : Asked S) → a ≡ with_rules a []
  with_rules-nil a = ap (λ xs. record a { rules = xs }) (sym (append-nil a.rules))

  view-add_allowed :
      (names : List Text) (p q : P)
      → add_allowed seacomb names p ≡ ok q
      → (ss : List S) × LookupAll seacomb.lookup names ss
        × (keeps.view q ≡ with_rules (keeps.view p) (map outright ss))
  unfolding add_allowed LookupAll
  view-add_allowed [] p q h =
      let same : p ≡ q = cc in ([], tt, sym (ap keeps.view same) ∙ with_rules-nil (keeps.view p))
  view-add_allowed (name ∷ names) p q h =
      let (s, known, rest) =
        >>=-eq-ok (context (seacomb.lookup name) (unknown_syscall name))
          (λ s. context (seacomb.add p (outright s)) policy_refused >>= λ p'.
            add_allowed seacomb names p')
          h in
      let (mid, e, more) =
        >>=-eq-ok (context (seacomb.add p (outright s)) policy_refused)
          (λ p'. add_allowed seacomb names p') rest in
      let step =
        keeps.view-add p mid (outright s)
          (context-eq-ok (seacomb.add p (outright s)) policy_refused e) in
      let (ss, listed, seen) = view-add_allowed names mid q more in
      (
        s ∷ ss,
        (context-eq-ok (seacomb.lookup name) (unknown_syscall name) known, listed),
        seen
            ∙ (ap (λ a. with_rules a (map outright ss)) step
                ∙ with_rules-with_rules (keeps.view p) (outright s ∷ []) (map outright ss)),
      )

  view-add_partial :
      (rules : List (Text × Rule S)) (p q : P)
      → add_partial seacomb rules p ≡ ok q
      → keeps.view q ≡ with_rules (keeps.view p) (map (λ r. r.1) rules)
  unfolding add_partial
  view-add_partial [] p q h =
      let same : p ≡ q = cc in sym (ap keeps.view same) ∙ with_rules-nil (keeps.view p)
  view-add_partial ((name, rule) ∷ rules) p q h =
      let (mid, e, more) =
        >>=-eq-ok (context (seacomb.add p rule) (rule_refused name))
          (λ p'. add_partial seacomb rules p') h in
      let step =
        keeps.view-add p mid rule (context-eq-ok (seacomb.add p rule) (rule_refused name) e) in
      view-add_partial rules mid q more
      ∙ (ap (λ a. with_rules a (map (λ r. r.1) rules)) step
          ∙ with_rules-with_rules (keeps.view p) (rule ∷ []) (map (λ r. r.1) rules))

-- The reference: everything else is refused with EPERM, which is 1, an architecture that is not named
-- too, and the rules are those of the syscalls `ss`, each allowed on every architecture and whatever its
-- arguments, and then the partial ones.
abbrev pub reference_archs : Target → List Arch
reference_archs on_x86_64 = x86_64 ∷ x86 ∷ []
reference_archs on_aarch64 = aarch64 ∷ arm ∷ []
reference_archs on_other = []

abbrev pub allow_always : {S : Type 0} → S → Rule S
allow_always s = record {
  arch = none;
  action = allow;
  exact = false;
  syscall = found s;
  condition = always;
}

abbrev empty_policy : {S : Type 0} → Asked S
empty_policy = record { otherwise = errno 1; archs = []; bad_arch = none; rules = [] }

pub reference_policy : {S : Type 0} → Target → List S → List (Text × Rule S) → Asked S
reference_policy target ss partial = record {
  otherwise = errno 1;
  archs = reference_archs target;
  bad_arch = some (errno 1);
  rules = map allow_always ss ++ map (λ r. r.1) partial;
}

architectures-reference : (target : Target) → architectures target ≡ reference_archs target
unfolding architectures
architectures-reference on_x86_64 = refl
architectures-reference on_aarch64 = refl
architectures-reference on_other = refl

module _ {K P S : Type 0} (caps : Capabilities K) (target : Target) (seacomb : Seacomb P S)
    (keeps : Records seacomb) where
  -- A profile is the reference policy: what it does not name is refused with EPERM, the error 1, on the
  -- target and its 32-bit variant and on any other architecture, and its rules are one for each allowed
  -- name, in their order, which allows it whatever its arguments, and then the partial rules that are
  -- left. The package keeps what was asked of a policy.
  pub view-profile :
      (run : RunConfig K) (p : P)
      → profile caps target seacomb run ≡ ok p
      → (ss : List S) × LookupAll seacomb.lookup (verdict {S = S} caps target run).allowed ss
        × (keeps.view p ≡ reference_policy target ss (verdict caps target run).partial)
  unfolding profile reference_policy
  view-profile run p h =
      let v : Verdict S = verdict caps target run in
      let (created, e1, h1) =
        >>=-eq-ok (context (seacomb.create refuse) policy_refused)
          (λ created. add_archs seacomb (architectures target) created >>= λ covering.
            context (seacomb.on_bad_arch covering refuse) policy_refused >>= λ strict.
            add_allowed seacomb v.allowed strict >>= λ widened.
            add_partial seacomb v.partial widened)
          h in
      let (covering, e2, h2) =
        >>=-eq-ok (add_archs seacomb (architectures target) created)
          (λ covering. context (seacomb.on_bad_arch covering refuse) policy_refused >>= λ strict.
            add_allowed seacomb v.allowed strict >>= λ widened.
            add_partial seacomb v.partial widened)
          h1 in
      let (strict, e3, h3) =
        >>=-eq-ok (context (seacomb.on_bad_arch covering refuse) policy_refused)
          (λ strict. add_allowed seacomb v.allowed strict >>= λ widened.
            add_partial seacomb v.partial widened)
          h2 in
      let (widened, e4, e5) =
        >>=-eq-ok (add_allowed seacomb v.allowed strict)
          (λ widened. add_partial seacomb v.partial widened) h3 in
      let v1 =
        keeps.view-create refuse created
          (context-eq-ok (seacomb.create refuse) policy_refused e1) in
      let v2 = view-add_archs seacomb keeps (architectures target) created covering e2 in
      let v3 =
        keeps.view-on_bad_arch covering strict refuse
          (context-eq-ok (seacomb.on_bad_arch covering refuse) policy_refused e3) in
      let (ss, listed, v4) = view-add_allowed seacomb keeps v.allowed strict widened e4 in
      let v5 = view-add_partial seacomb keeps v.partial widened p e5 in
      (
        ss,
        listed,
        v5
            ∙ ap (λ a. with_rules a (map (λ r. r.1) v.partial))
                (v4
                  ∙ ap (λ a. with_rules a (map outright ss))
                      (v3
                        ∙ ap (λ a. with_bad_arch a refuse)
                            (v2
                              ∙ (ap (λ a. with_archs a (architectures target)) v1
                                  ∙ ap (with_archs empty_policy)
                                      (architectures-reference target))))),
      )
