-- ===== src/Spec/Limits.antt =====
-- `parse_memory`, `parse_size` and `resources` of src/spec.rs, and `LimitsConfig` of
-- src/config.rs. A size that has been read is never negative, so it is a `ℕ`; the numbers that a
-- definition states as TOML integers are `i64`, here `ℤ`. `f64` is a parameter.
pub mod Memory
pub mod Bounds
pub mod Tests
use climate.Common.{
  Text, codes, is_alphabetic, to_lower, trim_end, drop, length, map, ltb, leb, ◌==◌, ◌&&◌, ◌||◌,
  if◌then◌else◌, Option, none, some, List, [], ◌∷◌, Bool, true, false, ℕ, zero, suc, ◌+◌, ◌*◌, ◌-◌,
  Result, ok, err, ◌>>=◌, ◌>>◌, guard, context, traverse, text_eq, not, any,
}
use climate.Common.Number.{ℤ, pos, negsuc, i64_max, parse_signed, show_nat, leb_ℤ}
use climate.Common.Error.{
  Error, not_whole_number, negative_size, unknown_unit, too_large, zero_size, swap_sum_too_large,
  swap_without_memory, high_not_below_memory, cpu_not_positive, shares_out_of_range,
  pids_not_positive,
}

-- What the program uses of `f64`: the tests, and `(cpu * CPU_PERIOD as f64).round() as i64`.
pub record Float64 (F : Type 0) : Type 0 where
  pub le_zero : F → Bool
  pub is_nan : F → Bool
  pub times : F → ℕ → F
  pub round_i64 : F → ℤ

pub record LimitsConfig (F : Type 0) : Type 0 where
  pub memory : Option Text
  pub swap : Option Text
  pub memory_high : Option Text
  pub cpu : Option F
  pub cpu_shares : Option ℤ
  pub pids : Option ℤ

abbrev pub cpu_period : ℕ
cpu_period = 100000

abbrev pub cpu_shares_low : ℕ
cpu_shares_low = 2

abbrev pub cpu_shares_high : ℕ
cpu_shares_high = 262144

-- `i64::checked_mul` and `checked_add` of numbers that are not negative.
abbrev pub checked : ℕ → Option ℕ
checked n = if leb n i64_max then some n else none

abbrev pub one_of : List Text → Text → Bool
one_of names unit = any (text_eq unit) names

unfoldable pub multiplier : Text → Option ℕ
unfolding text_eq
multiplier unit =
    if one_of ([] ∷ codes "b" ∷ []) unit
    then some 1
    else if one_of (codes "k" ∷ codes "kb" ∷ codes "kib" ∷ []) unit
    then some 1024
    else if one_of (codes "m" ∷ codes "mb" ∷ codes "mib" ∷ []) unit
    then some (1024 * 1024)
    else if one_of (codes "g" ∷ codes "gb" ∷ codes "gib" ∷ []) unit
    then some (1024 * 1024 * 1024)
    else if one_of (codes "t" ∷ codes "tb" ∷ codes "tib" ∷ []) unit
    then some (1024 * 1024 * 1024 * 1024)
    else none

-- The unit's own match, once the amount has been read.
pub scale : Text → Text → Text → ℤ → Result Error ℕ
scale key value unit (negsuc n) = err (negative_size key value)
scale key value unit (pos amount) = do
  m ← context (multiplier unit) (unknown_unit key value)
  context (checked (amount * m)) (too_large key value)

-- `digits` of the source, and its `unit`.
abbrev pub digits_of : Text → Text
digits_of value = trim_end is_alphabetic value

abbrev pub unit_of : Text → Text
unit_of value = map to_lower (drop (length (digits_of value)) value)

unfoldable pub parse_memory : Text → Text → Result Error ℕ
parse_memory key value = do
  amount ← context (parse_signed i64_max (digits_of value)) (not_whole_number key value)
  scale key value (unit_of value) amount

unfoldable pub parse_size : Text → Text → Result Error ℕ
parse_size key value = do
  size ← parse_memory key value
  if size == 0 then err (zero_size key value) else ok size

-- `LinuxMemory`, `LinuxCpu` and `LinuxResources`, as far as the program sets them.
pub record MemorySettings : Type 0 where
  pub limit : ℕ
  pub swap : Option ℕ

pub record CpuSettings : Type 0 where
  pub quota : Option ℤ
  pub period : Option ℕ
  pub shares : Option ℕ

pub record LinuxResources : Type 0 where
  pub memory : Option MemorySettings
  pub unified : List (Text × Text)
  pub cpu : Option CpuSettings
  pub pids : Option ℕ

abbrev pub is_none {ℓ} : {A : Type ℓ} → Option A → Bool
is_none none = true
is_none (some a) = false

-- The swap limit of an app with a memory limit, on top of which it is added.
pub swap_settings : ℕ → Option Text → Result Error MemorySettings
swap_settings memory none = ok (record { limit = memory; swap = none })
swap_settings memory (some text) = do
  swap ← parse_memory (codes "swap") text
  total ← context (checked (memory + swap)) swap_sum_too_large
  ok (record { limit = memory; swap = some total })

pub memory_settings : Option ℕ → Option Text → Result Error (Option MemorySettings)
memory_settings (some memory) swap = do settings ← swap_settings memory swap; ok (some settings)
memory_settings none (some text) = err (swap_without_memory text)
memory_settings none none = ok none

-- `memory.is_some_and(|memory| high >= memory)`
abbrev reaches : Option ℕ → ℕ → Bool
reaches none high = false
reaches (some memory) high = leb memory high

pub unified_settings : Option ℕ → Option Text → Result Error (List (Text × Text))
unified_settings memory none = ok []
unified_settings memory (some text) = do
  high ← parse_size (codes "memory-high") text
  guard (not (reaches memory high)) (high_not_below_memory text)
  ok ((codes "memory.high", show_nat high) ∷ [])

module _ {F : Type 0} (float : Float64 F) where
  pub quota_settings : Option F → Result Error (Option ℤ)
  quota_settings none = ok none
  quota_settings (some cpu) =
      if float.le_zero cpu || float.is_nan cpu
      then err cpu_not_positive
      else ok (some (float.round_i64 (float.times cpu cpu_period)))

  -- `shares as u64` of a number in the range.
  pub shares_settings : Option ℤ → Result Error (Option ℕ)
  shares_settings none = ok none
  shares_settings (some (negsuc n)) = err (shares_out_of_range (negsuc n))
  shares_settings (some (pos n)) =
      if leb cpu_shares_low n && leb n cpu_shares_high
      then ok (some n)
      else err (shares_out_of_range (pos n))

  pub cpu_settings : Option F → Option ℤ → Result Error (Option CpuSettings)
  cpu_settings none none = ok none
  cpu_settings cpu shares = do
    quota ← quota_settings cpu
    weight ← shares_settings shares
    ok (
        some (record {
          quota = quota;
          period = if is_none cpu then none else some cpu_period;
          shares = weight;
        }))

  pub pids_settings : Option ℤ → Result Error (Option ℕ)
  pids_settings none = ok none
  pids_settings (some (negsuc n)) = err (pids_not_positive (negsuc n))
  pids_settings (some (pos n)) = if n == 0 then err (pids_not_positive (pos n)) else ok (some n)

  abbrev nothing_set : LimitsConfig F → Bool
  nothing_set limits =
      is_none limits.memory
      && is_none limits.swap
      && is_none limits.memory_high
      && is_none limits.cpu
      && is_none limits.cpu_shares
      && is_none limits.pids

  -- The settings that follow once the memory limit has been read.
  pub settings_with : LimitsConfig F → Option ℕ → Result Error LinuxResources
  settings_with limits memory = do
    settings ← memory_settings memory limits.swap
    unified ← unified_settings memory limits.memory_high
    cpu ← cpu_settings limits.cpu limits.cpu_shares
    pids ← pids_settings limits.pids
    ok (record { memory = settings; unified = unified; cpu = cpu; pids = pids })

  unfoldable pub resources : LimitsConfig F → Result Error (Option LinuxResources)
  resources limits = if nothing_set limits then ok none else do
    memory ← traverse (parse_size (codes "memory")) limits.memory
    settings ← settings_with limits memory
    ok (some settings)
