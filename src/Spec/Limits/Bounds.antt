-- ===== src/Spec/Limits/Bounds.antt =====
-- What holds of the resource limits that a definition is turned into.
use climate.Common.{
  context, four_steps-eq-ok, ap, guard, ◌>>◌, not, Text, codes, Option, some, none, List, [], ◌∷◌,
  ℕ, ◌≤◌, ◌<◌, ◌≡◌, refl, Result, ok, err, arith, ◌⊎◌, inl, inr, ◌>>=◌, >>=-eq-ok, traverse,
}
use climate.Common.Number.{ℤ, pos, negsuc, i64_max, show_nat, parse_signed}
use climate.Common.Error.{Error, not_whole_number, high_not_below_memory}
use climate.Spec.Limits.{
  digits_of, settings_with, reaches, unit_of, Float64, LimitsConfig, MemorySettings, CpuSettings,
  LinuxResources, parse_memory, parse_size, scale, swap_settings, memory_settings, unified_settings,
  cpu_settings, shares_settings, pids_settings, resources, cpu_shares_low, cpu_shares_high,
}

-- `P` holds of the value, if there is one.
abbrev pub IfSome {ℓ κ} : {A : Type ℓ} → (A → Type κ) → Option A → Type κ
IfSome P none = Unit
IfSome P (some a) = P a

scale-le : (key value unit : Text) (a : ℤ) (r : ℕ) → scale key value unit a ≡ ok r → r ≤ i64_max
unfolding scale
scale-le key value unit (negsuc n) r h = cc
scale-le key value unit (pos n) r h = ground arith

parse_memory-le : (key value : Text) (r : ℕ) → parse_memory key value ≡ ok r → r ≤ i64_max
unfolding parse_memory
parse_memory-le key value r h =
    let (amount, _, e) =
      >>=-eq-ok (context (parse_signed i64_max (digits_of value)) (not_whole_number key value))
        (scale key value (unit_of value)) h in
    scale-le key value (unit_of value) amount r e

-- A size that has been read is positive and fits `i64`.
pub parse_size_bounds :
    (key value : Text) (r : ℕ) → parse_size key value ≡ ok r → (0 < r) × (r ≤ i64_max)
unfolding parse_size
parse_size_bounds key value r h =
    let (size, read, e) = >>=-eq-ok (parse_memory key value) _ h in
    ground (arith, parse_memory-le key value size read)

-- The memory limit is a positive `i64`, and the runtime's swap limit, which counts memory and swap
-- together, is an `i64` not below it.
abbrev pub IsMemory : MemorySettings → Type 0
IsMemory m =
    (0 < m.limit) × (m.limit ≤ i64_max) × IfSome (λ t. (m.limit ≤ t) × (t ≤ i64_max)) m.swap

-- The mark is below the limit, where there is one.
abbrev pub IsBelow : ℕ → Option MemorySettings → Type 0
IsBelow high = IfSome (λ m. high < m.limit)

abbrev pub IsUnified : List (Text × Text) → Option MemorySettings → Type 0
IsUnified unified memory =
    (unified ≡ [])
    ⊎ ((high : ℕ) × (unified ≡ (codes "memory.high", show_nat high) ∷ [])
        × (0 < high)
        × IsBelow high memory)

abbrev pub IsShares : ℕ → Type 0
IsShares n = (cpu_shares_low ≤ n) × (n ≤ cpu_shares_high)

abbrev pub IsCpu : CpuSettings → Type 0
IsCpu c = IfSome IsShares c.shares

pub record IsWithin (r : LinuxResources) : Type 0 where
  pub memory : IfSome IsMemory r.memory
  pub unified : IsUnified r.unified r.memory
  pub cpu : IfSome IsCpu r.cpu
  pub pids : IfSome (λ n. 0 < n) r.pids

swap_settings-IsMemory :
    (memory : ℕ) (swap : Option Text) (m : MemorySettings)
    → 0 < memory
    → memory ≤ i64_max
    → swap_settings memory swap ≡ ok m
    → IsMemory m × (m.limit ≡ memory)
unfolding swap_settings
swap_settings-IsMemory memory none m above fits h = ground arith
swap_settings-IsMemory memory (some text) m above fits h = ground arith

abbrev limit_of : Option MemorySettings → Option ℕ
limit_of none = none
limit_of (some m) = some m.limit

memory_settings-IsMemory :
    (memory : Option ℕ) (swap : Option Text) (s : Option MemorySettings)
    → IfSome (λ n. (0 < n) × (n ≤ i64_max)) memory
    → memory_settings memory swap ≡ ok s
    → IfSome IsMemory s × (limit_of s ≡ memory)
unfolding memory_settings
memory_settings-IsMemory none none s bounds h = ground arith
memory_settings-IsMemory none (some text) s bounds h = cc
memory_settings-IsMemory (some n) swap none bounds h = ground arith
memory_settings-IsMemory (some n) swap (some m) bounds h =
    let r = swap_settings-IsMemory n swap m bounds.0 bounds.1 (ground arith) in (r.0, ap some r.1)

unified_settings-IsUnified :
    (s : Option MemorySettings) (text : Option Text) (u : List (Text × Text))
    → unified_settings (limit_of s) text ≡ ok u
    → IsUnified u s
unfolding unified_settings
unified_settings-IsUnified s none u h = inl (ground arith)
unified_settings-IsUnified s (some text) u h =
    let (high, read, e) =
      >>=-eq-ok (parse_size (codes "memory-high") text)
        (λ high. do
          guard (not (reaches (limit_of s) high)) (high_not_below_memory text)
          ok ((codes "memory.high", show_nat high) ∷ []))
        h in
    inr (high, marked s high e, (parse_size_bounds _ text high read).0, below s high e)
  where
    marked :
        (s : Option MemorySettings) (high : ℕ)
        → (guard (not (reaches (limit_of s) high)) (high_not_below_memory text)
            >> ok ((codes "memory.high", show_nat high) ∷ []))
          ≡ ok u
        → u ≡ (codes "memory.high", show_nat high) ∷ []
    marked none high e = ground arith
    marked (some m) high e = ground arith

    below :
        (s : Option MemorySettings) (high : ℕ)
        → (guard (not (reaches (limit_of s) high)) (high_not_below_memory text)
            >> ok ((codes "memory.high", show_nat high) ∷ []))
          ≡ ok u
        → IsBelow high s
    below none high e = tt
    below (some m) high e = ground arith

module _ {F : Type 0} (float : Float64 F) where
  shares_settings-IsShares :
      (shares : Option ℤ) (o : Option ℕ) → shares_settings float shares ≡ ok o → IfSome IsShares o
  unfolding shares_settings
  shares_settings-IsShares none none h = tt
  shares_settings-IsShares none (some n) h = cc
  shares_settings-IsShares (some (negsuc k)) o h = cc
  shares_settings-IsShares (some (pos k)) none h = tt
  shares_settings-IsShares (some (pos k)) (some n) h = ground arith

  pids_settings-IsPositive :
      (pids : Option ℤ) (o : Option ℕ) → pids_settings float pids ≡ ok o → IfSome (λ n. 0 < n) o
  unfolding pids_settings
  pids_settings-IsPositive none none h = tt
  pids_settings-IsPositive none (some n) h = cc
  pids_settings-IsPositive (some (negsuc k)) o h = cc
  pids_settings-IsPositive (some (pos k)) none h = tt
  pids_settings-IsPositive (some (pos k)) (some n) h = ground arith

  cpu_settings-IsCpu :
      (cpu : Option F) (shares : Option ℤ) (o : Option CpuSettings)
      → cpu_settings float cpu shares ≡ ok o
      → IfSome IsCpu o
  unfolding cpu_settings
  cpu_settings-IsCpu cpu shares none h = tt
  cpu_settings-IsCpu none none (some c) h = cc
  cpu_settings-IsCpu none (some k) (some c) h =
      ground (arith, shares_settings-IsShares (some k) c.shares)
  cpu_settings-IsCpu (some q) shares (some c) h =
      ground (arith, shares_settings-IsShares shares c.shares)

  settings_with-IsWithin :
      (limits : LimitsConfig F) (memory : Option ℕ) (r : LinuxResources)
      → IfSome (λ n. (0 < n) × (n ≤ i64_max)) memory
      → settings_with float limits memory ≡ ok r
      → IsWithin r
  unfolding settings_with
  settings_with-IsWithin limits memory r bounds h =
      let (s, u, c, p, es, eu, ec, ep, e) =
        four_steps-eq-ok (memory_settings memory limits.swap)
          (unified_settings memory limits.memory_high)
          (cpu_settings float limits.cpu limits.cpu_shares) (pids_settings float limits.pids)
          (λ s u c p. record { memory = s; unified = u; cpu = c; pids = p }) h in
      let (within, limit) = memory_settings-IsMemory memory limits.swap s bounds es in
      rw e (record {
        memory = within;
        unified = unified_settings-IsUnified s limits.memory_high u (rw limit eu);
        cpu = cpu_settings-IsCpu limits.cpu limits.cpu_shares c ec;
        pids = pids_settings-IsPositive limits.pids p ep;
      })

  -- a size that `traverse` read
  traverse-bounds :
      (key : Text) (o : Option Text) (m : Option ℕ)
      → traverse (parse_size key) o ≡ ok m
      → IfSome (λ n. (0 < n) × (n ≤ i64_max)) m
  traverse-bounds key o none h = tt
  traverse-bounds key none (some n) h = cc
  traverse-bounds key (some text) (some n) h = parse_size_bounds key text n (ground arith)

  traverse-settings :
      (limits : LimitsConfig F) (m : Result Error (Option ℕ)) (r : LinuxResources)
      → (m >>= λ memory. settings_with float limits memory >>= λ s. ok (some s)) ≡ ok (some r)
      → (memory : Option ℕ) × (m ≡ ok memory) × (settings_with float limits memory ≡ ok r)
  traverse-settings limits (ok memory) r h = (memory, refl, ground arith)
  traverse-settings limits (err e) r h = cc

  -- Limits that are accepted are within their bounds: memory, where it is limited, to a positive
  -- `i64`, with a total of memory and swap that is an `i64` not below it; a `memory.high` that is
  -- positive and below the limit, where there is one; CPU shares from 2 to 262144; and at least one
  -- process.
  pub resources-IsWithin :
      (limits : LimitsConfig F) (r : LinuxResources)
      → resources float limits ≡ ok (some r)
      → IsWithin r
  unfolding resources
  resources-IsWithin limits r h =
      let (memory, read, made) =
        traverse-settings limits (traverse (parse_size (codes "memory")) limits.memory) r
          (ground arith) in
      settings_with-IsWithin limits memory r
        (traverse-bounds (codes "memory") limits.memory memory read) made
