-- ===== src/Seccomp.antt =====
-- src/seccomp.rs: the filter that one app runs under. `K` stands for the capabilities of the
-- oci_spec package. The seacomb package, which knows the names of syscalls and compiles a policy,
-- is the parameter `Seacomb`: a policy `P` that grows by its methods, and syscalls `S`.
mod Tables
unfoldable pub use Tables.*
pub mod Sets
pub mod Decision
pub mod Recorded
pub mod Tests
use climate.Common.{
  Text, codes, text_in, text_eq, remove_text, retain, any, ltb, ◌==◌, not, if◌then◌else◌, Option,
  none, some, List, [], ◌∷◌, ◌++◌, map, Bool, true, false, ℕ, Result, ok, err, ◌>>=◌, context,
}
use climate.Common.Error.{Error, policy_refused, rule_refused, unknown_syscall}
use climate.Config.{RunConfig}

pub data Action : Type 0 where
  allow : Action
  errno : ℕ → Action

-- The test of a rule, on the argument that it names.
pub data Condition : Type 0 where
  always : Condition
  masked_zero not_equal equal : Text → ℕ → Condition

-- The syscall of a rule: written in the rule, or looked up.
pub data Callee (S : Type 0) : Type 0 where
  named : Text → Callee S
  found : S → Callee S

pub record Rule (S : Type 0) : Type 0 where
  pub arch : Option Arch
  pub action : Action
  pub exact : Bool
  pub syscall : Callee S
  pub condition : Condition

pub record Seacomb (P S : Type 0) : Type 0 where
  pub lookup : Text → Option S
  pub create : Action → Option P
  pub add_arch : P → Arch → Option P
  pub on_bad_arch : P → Action → Option P
  pub add : P → Rule S → Option P

-- The order of `str`, and a `BTreeSet` of texts as the list of its members in that order.
unfoldable pub text_less : Text → Text → Bool
text_less [] [] = false
text_less [] (d ∷ t) = true
text_less (c ∷ s) [] = false
text_less (c ∷ s) (d ∷ t) = if c == d then text_less s t else ltb c d

unfoldable pub insert_name : Text → List Text → List Text
insert_name n [] = n ∷ []
insert_name n (m ∷ ms) =
    let rest = insert_name n ms in
    if text_eq n m then m ∷ ms else if text_less n m then n ∷ (m ∷ ms) else m ∷ rest

-- `extend` and `collect`.
unfoldable pub extend : List Text → List Text → List Text
extend [] set = set
extend (n ∷ ns) set = extend ns (insert_name n set)

-- The capabilities as the package has them, with its equality.
pub record Capabilities (K : Type 0) : Type 0 where
  pub named : Named → K
  pub same : K → K → Bool

module _ {S : Type 0} where
  abbrev clone_rule : Arch → Text × Rule S
  clone_rule arch = (
    codes "clone",
    record {
      arch = some arch;
      action = allow;
      exact = false;
      syscall = named (codes "clone");
      condition = masked_zero (codes "flags") clone_newuser;
    },
  )

  abbrev unshare_rule : Text × Rule S
  unshare_rule = (
    codes "unshare",
    record {
      arch = none;
      action = allow;
      exact = false;
      syscall = named (codes "unshare");
      condition = masked_zero (codes "flags") clone_newuser;
    },
  )

  abbrev clone3_rule : Text × Rule S
  clone3_rule = (
    codes "clone3",
    record {
      arch = none;
      action = errno enosys;
      exact = false;
      syscall = named (codes "clone3");
      condition = always;
    },
  )

  abbrev socket_rule : Text × Rule S
  socket_rule = (
    codes "socket",
    record {
      arch = none;
      action = allow;
      exact = true;
      syscall = named (codes "socket");
      condition = not_equal (codes "domain") af_vsock;
    },
  )

  abbrev personality_rule : ℕ → Text × Rule S
  personality_rule personality = (
    codes "personality",
    record {
      arch = none;
      action = allow;
      exact = false;
      syscall = named (codes "personality");
      condition = equal (codes "domain") personality;
    },
  )

  unfoldable pub partial_rules : Target → List (Text × Rule S)
  partial_rules target =
      map clone_rule (architectures target)
      ++ (unshare_rule ∷ clone3_rule ∷ socket_rule ∷ map personality_rule personalities)

  -- `partial.retain(|(covered, _)| covered != name)`
  abbrev pub drop_covered : Text → List (Text × Rule S) → List (Text × Rule S)
  drop_covered name rules = retain (λ r. not (text_eq r.0 name)) rules

-- What an app's definition decides: the syscalls that are allowed outright, and the partial rules.
pub record Verdict (S : Type 0) : Type 0 where
  pub allowed : List Text
  pub partial : List (Text × Rule S)

module _ {S : Type 0} where
  -- The loops over `seccomp_allow` and over `seccomp_deny`.
  unfoldable pub allow_names : List Text → Verdict S → Verdict S
  allow_names [] v = v
  allow_names (name ∷ names) v =
      allow_names names
        (record { allowed = insert_name name v.allowed; partial = drop_covered name v.partial })

  unfoldable pub deny_names : List Text → Verdict S → Verdict S
  deny_names [] v = v
  deny_names (name ∷ names) v =
      deny_names names
        (record { allowed = remove_text name v.allowed; partial = drop_covered name v.partial })

-- The rule for a name on the list, which is allowed outright.
abbrev pub outright : {S : Type 0} → S → Rule S
outright s = record {
  arch = none;
  action = allow;
  exact = false;
  syscall = found s;
  condition = always;
}

abbrev pub refuse : Action
refuse = errno eperm

module _ {K : Type 0} (caps : Capabilities K) where
  abbrev pub holds : RunConfig K → Named → Bool
  holds run capability = any (caps.same (caps.named capability)) run.capabilities

  unfoldable pub grant : RunConfig K → List (Named × List Text) → List Text → List Text
  grant run [] allowed = allowed
  grant run ((capability, syscalls) ∷ rest) allowed =
      grant run rest (if holds run capability then extend syscalls allowed else allowed)

module _ {K S : Type 0} (caps : Capabilities K) (target : Target) where
  unfoldable pub verdict : RunConfig K → Verdict S
  verdict run = deny_names run.seccomp_deny (
      allow_names run.seccomp_allow (record {
        allowed =
            grant caps run capability_syscalls
              (extend (allowed_syscalls ++ arch_allowed target) []);
        partial = partial_rules target;
      }))

module _ {P S : Type 0} (seacomb : Seacomb P S) where
  unfoldable pub add_archs : List Arch → P → Result Error P
  add_archs [] policy = ok policy
  add_archs (arch ∷ archs) policy = do
    policy' ← context (seacomb.add_arch policy arch) policy_refused
    add_archs archs policy'

  unfoldable pub add_allowed : List Text → P → Result Error P
  add_allowed [] policy = ok policy
  add_allowed (name ∷ names) policy = do
    syscall ← context (seacomb.lookup name) (unknown_syscall name)
    policy' ← context (seacomb.add policy (outright syscall)) policy_refused
    add_allowed names policy'

  unfoldable pub add_partial : List (Text × Rule S) → P → Result Error P
  add_partial [] policy = ok policy
  add_partial ((name, rule) ∷ rules) policy = do
    policy' ← context (seacomb.add policy rule) (rule_refused name)
    add_partial rules policy'

module _ {K P S : Type 0} (caps : Capabilities K) (target : Target) (seacomb : Seacomb P S) where
  unfoldable pub profile : RunConfig K → Result Error P
  profile run = do
    created ← context (seacomb.create refuse) policy_refused
    covering ← add_archs seacomb (architectures target) created
    strict ← context (seacomb.on_bad_arch covering refuse) policy_refused
    widened ← add_allowed seacomb (verdict {S = S} caps target run).allowed strict
    add_partial seacomb (verdict caps target run).partial widened
