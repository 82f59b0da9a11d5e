-- ===== src/Localnet/Egress.antt =====
-- `is_unicast` and `egress` of src/localnet.rs: the interface that a destination is reached on
-- directly, if there is one.
pub mod Best
use Prim.Native.Nat.{max}
use climate.Common.{
  Text, ltb, leb, ◌==◌, ◌&&◌, ◌||◌, not, all, retain, if◌then◌else◌, Option, none, some, List, [],
  ◌∷◌, Bool, true, false, ℕ, ◌/◌, ◌^◌,
}
use climate.Localnet.Route.{IpAddr, v4, v6, Route, contains, on_link}

-- Unspecified, broadcast, and multicast: 224.0.0.0/4 and ff00::/8.
unfoldable pub is_unicast : IpAddr → Bool
is_unicast (v4 ip) = not (ip == 0 || ip == 0xffff_ffff || ip / 2 ^ 28 == 14)
is_unicast (v6 ip) = not (ip == 0 || ip / 2 ^ 120 == 255)

-- `map(|route| route.prefix).max()`
abbrev pub at_least : ℕ → Option ℕ → ℕ
at_least n none = n
at_least n (some m) = if ltb n m then m else n

unfoldable pub longest_prefix : List Route → Option ℕ
longest_prefix [] = none
longest_prefix (r ∷ rs) = some (at_least r.prefix (longest_prefix rs))

abbrev pub first_device : List Route → Option Text
first_device [] = none
first_device (r ∷ rs) = some r.device

-- The routes that contain the address, and of those the most specific ones.
abbrev pub matching : List Route → IpAddr → List Route
matching routes ip = retain (λ route. contains route ip) routes

abbrev pub best_of : List Route → ℕ → List Route
best_of routes longest = retain (λ route. route.prefix == longest) routes

abbrev pub device_of : List Route → Option Text
device_of best = if all on_link best then first_device best else none

abbrev pub choose : List Route → Option ℕ → Option Text
choose routes none = none
choose routes (some longest) = device_of (best_of routes longest)

unfoldable pub egress : List Route → IpAddr → Option Text
egress routes ip =
    if not (is_unicast ip)
    then none
    else choose (matching routes ip) (longest_prefix (matching routes ip))
