-- ===== src/Clean/Runs/Tests.antt =====
-- Two runs: the process 10 is there, and the process 20 is gone, with its root filesystem mounted.
use climate.Common.{codes, some, [], ◌∷◌, true, false, ◌≡◌, refl}
use climate.Common.Number.{pos, leb_ℤ, parse_signed, parse_digits, digits_from, to_digit}
use climate.Common.Action.{Ends, each}
use climate.Common.{text_eq}
use climate.Clean.{pid_of}
use climate.Spec.Paths.{join_path}
use climate.Clean.Runs.{
  Traces, System, prune_dir, prune_container, is_over, alive, delete_container, deletes,
  prune_bundle, remove_bundle, prune_overlay, unmount, is_mounted, remove_overlay, prune_runtime,
}
use climate.Clean.Runs.Spared.{IsSpared, prune_runtime-IsSpared}
use climate.Clean.Runs.Pruned.{IsWorking, IsPruned, prune_runtime-IsPruned}

abbrev sys : System
sys = record {
  runtime_dir = codes "/run/climate";
  can_list = λ dir. true;
  is_gone = leb_ℤ (pos 20);
  loads_container = λ id. true;
  deletes_container = λ id. false;
  removes_dir = λ id. true;
  fusermount = λ path mounts. (some true, some []);
}

abbrev before : Traces
before = record {
  containers = codes "climate-10-1" ∷ codes "climate-20-2" ∷ codes "other" ∷ [];
  bundles = codes "climate-20-2" ∷ codes "climate-10-1" ∷ [];
  overlays = codes "20-3" ∷ codes "10-4" ∷ [];
  mounts = some (codes "fuse /run/climate/overlays/20-3/merged fuse rw 0 0");
}

after : (prune_runtime sys before).1 ≡ record {
  containers = codes "climate-10-1" ∷ codes "other" ∷ [];
  bundles = codes "climate-10-1" ∷ [];
  overlays = codes "10-4" ∷ [];
  mounts = some [];
}
unfolding prune_runtime prune_dir each prune_container is_over pid_of parse_signed parse_digits
    digits_from to_digit alive delete_container deletes prune_bundle remove_bundle prune_overlay
    unmount is_mounted remove_overlay text_eq join_path
after = refl

works : IsWorking sys
works = record { lists = λ dir. refl; removes = λ id. refl; unmounts = λ path mounts. refl }

-- A mount that is in use is not taken down.
abbrev busy : System
busy = record sys { fusermount = λ path mounts. (some false, mounts) }

prune_runtime-IsSpared_example :
    Ends (λ done s'. IsSpared busy before s') (IsSpared busy before) (prune_runtime busy before)
prune_runtime-IsSpared_example =
    prune_runtime-IsSpared busy before (λ path other mounts apart there. there)

prune_runtime-IsPruned_example :
    Ends (λ done s'. IsPruned sys s') (λ s'. ⊥) (prune_runtime sys before)
prune_runtime-IsPruned_example = prune_runtime-IsPruned sys before works
