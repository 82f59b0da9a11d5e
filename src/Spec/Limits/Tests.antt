-- ===== src/Spec/Limits/Tests.antt =====
-- Sizes and limits on concrete definitions. The `f64` of the tests is a number of thousandths.
use climate.Common.{
  inl, inr, codes, text_eq, some, [], ◌∷◌, ◌++◌, false, ℕ, ◌*◌, ◌==◌, ◌≡◌, refl, ok, arith, ◌/◌,
}
use climate.Common.Number.{pos, parse_signed, show_nat}
use climate.Spec.Limits.{
  Float64, LimitsConfig, LinuxResources, multiplier, parse_memory, parse_size, scale,
  memory_settings, swap_settings, unified_settings, cpu_settings, quota_settings, shares_settings,
  pids_settings, settings_with, resources,
}
use climate.Spec.Limits.Memory.{parse_memory-show_nat}
use climate.Spec.Limits.Bounds.{resources-IsWithin, IsWithin}

abbrev pub thousandths : Float64 ℕ
thousandths = record {
  le_zero = λ x. x == 0;
  is_nan = λ x. false;
  times = λ x n. x * n;
  round_i64 = λ x. pos (x / 1000);
}

abbrev sample : LimitsConfig ℕ
sample = record {
  memory = some (codes "512M");
  swap = some (codes "1g");
  memory_high = some (codes "256MiB");
  cpu = some 1500;
  cpu_shares = some (pos 512);
  pids = some (pos 64);
}

abbrev sample_resources : LinuxResources
sample_resources = record {
  memory = some (record { limit = 536870912; swap = some 1610612736 });
  unified = (codes "memory.high", codes "268435456") ∷ [];
  cpu = some (record { quota = some (pos 150000); period = some 100000; shares = some 512 });
  pids = some 64;
}

sample_read : resources thousandths sample ≡ ok (some sample_resources)
unfolding resources settings_with parse_size parse_memory parse_signed scale multiplier text_eq
    memory_settings swap_settings unified_settings show_nat cpu_settings quota_settings
    shares_settings pids_settings
sample_read = refl

resources-IsWithin_example : IsWithin sample_resources
resources-IsWithin_example = resources-IsWithin thousandths sample sample_resources sample_read

kib : multiplier (codes "kib") ≡ some 1024
unfolding multiplier text_eq
kib = refl

parse_memory-show_nat_example :
    parse_memory (codes "memory") (show_nat 64 ++ codes "KiB") ≡ ok 65536
parse_memory-show_nat_example =
    parse_memory-show_nat (codes "memory") (codes "KiB") 64 1024 (omega arith)
      (refl, (refl, (refl, tt))) (inr (inr (inr (inr (inl refl)))))

one_mib : parse_size (codes "memory") (codes "1MiB") ≡ ok 1048576
unfolding parse_size parse_memory parse_signed scale multiplier text_eq
one_mib = refl
