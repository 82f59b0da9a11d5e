-- ===== src/Seccomp/Tests.antt =====
-- A package that takes every call, with every name that of a syscall, and an app that asks for
-- CAP_SYS_CHROOT, allows `clone` and denies `chroot` and `reboot`.
use climate.Common.{
  Result, err, Bool, Text, codes, text_in, text_eq, length, ◌==◌, none, some, [], ◌∷◌, ◌++◌, true,
  false, ℕ, ok, ◌≡◌, refl, ap, inl, inr, List,
}
use climate.Config.{RunConfig, no_network}
use climate.Config.Load.{check_names, check_syscall_names}
use climate.Common.Error.{Error}
use climate.Seccomp.{
  add_archs, add_allowed, add_partial, allow_names, deny_names, grant, text_less, insert_name,
  extend, architectures, Named, on_x86_64, Capabilities, Seacomb, verdict, profile, sys_chroot, bpf,
  allowed_syscalls, capability_syscalls, arch_allowed, partial_rules,
}
use climate.Seccomp.Decision.{partial-verdict, verdict-guarded}
use climate.Seccomp.Recorded.{Asked, Records, LookupAll, reference_policy, view-profile}

abbrev pub number : Named → ℕ
number sys_chroot = 18
number bpf = 39
number other = 0

abbrev pub caps : Capabilities ℕ
caps = record { named = number; same = λ a b. a == b }

abbrev run : RunConfig ℕ
run = record {
  entrypoint = none;
  args = [];
  env = [];
  mount_cwd = true;
  mount = [];
  network = no_network;
  capabilities = 18 ∷ [];
  seccomp_allow = codes "clone" ∷ [];
  seccomp_deny = codes "chroot" ∷ codes "reboot" ∷ [];
}

abbrev pub seacomb : Seacomb (Asked Text) Text
seacomb = record {
  lookup = λ name. some name;
  create = λ action. some (record { otherwise = action; archs = []; bad_arch = none; rules = [] });
  add_arch = λ p arch. some (record p { archs = p.archs ++ arch ∷ [] });
  on_bad_arch = λ p action. some (record p { bad_arch = some action });
  add = λ p rule. some (record p { rules = p.rules ++ rule ∷ [] });
}

some_eq : {A : Type 0} {x y : A} → some x ≡ some y → y ≡ x
some_eq h = cc

abbrev records : Records seacomb
records = record {
  view = λ p. p;
  view-create = λ action p h. some_eq h;
  view-add_arch = λ p q arch h. some_eq h;
  view-on_bad_arch = λ p q action h. some_eq h;
  view-add = λ p q rule h. some_eq h;
}

allowed_syscalls-length : length allowed_syscalls ≡ 366
unfolding allowed_syscalls
allowed_syscalls-length = refl

partial-verdict_example : length (verdict {S = Text} caps on_x86_64 run).partial ≡ 8
unfolding text_eq partial_rules architectures
partial-verdict_example = ap length (partial-verdict Text caps on_x86_64 run)

verdict-guarded_example :
    text_in (verdict {S = Text} caps on_x86_64 run).allowed (codes "clone3") ≡ false
unfolding text_eq
verdict-guarded_example =
    verdict-guarded Text caps on_x86_64 run (codes "clone3") (inr (inr (inl refl))) refl

checked_run : check_syscall_names (λ n. true) run ≡ ok tt
unfolding check_syscall_names check_names
checked_run = refl

abbrev is_ok : {A : Type 0} → Result Error A → Bool
is_ok (ok a) = true
is_ok (err e) = false

of_ok : {A : Type 0} (r : Result Error A) → is_ok r ≡ true → (a : A) × (r ≡ ok a)
of_ok (ok a) h = (a, refl)
of_ok (err e) h = cc

compiles : is_ok (profile caps on_x86_64 seacomb run) ≡ true
unfolding profile add_archs add_allowed add_partial verdict allow_names deny_names partial_rules
    grant text_less insert_name extend allowed_syscalls arch_allowed architectures
    capability_syscalls text_eq
compiles = refl

policy : (p : Asked Text) × (profile caps on_x86_64 seacomb run ≡ ok p)
policy = of_ok (profile caps on_x86_64 seacomb run) compiles

view-profile_example :
    (ss : List Text) × LookupAll
      (λ name. some name)
      (verdict {S = Text} caps on_x86_64 run).allowed
      ss
    × (policy.0 ≡ reference_policy on_x86_64 ss (verdict caps on_x86_64 run).partial)
view-profile_example = view-profile caps on_x86_64 seacomb records run policy.0 policy.1
