-- ===== src/Localnet/Route.antt =====
-- `Route`, `same_prefix`, `v4_route`, `v6_route` and `routes` of src/localnet.rs. The machine is
-- little-endian, as both targets of the program's builds are.
pub mod Prefix
pub mod Lines
use Prim.Native.Nat.{bit_and, bit_xor}
use climate.Common.{
  Text, codes, text_eq, lines, split_whitespace, get_elem?, drop, ltb, leb, ◌==◌, ◌&&◌, not,
  if◌then◌else◌, Option, none, some, List, [], ◌∷◌, ◌++◌, Bool, true, false, ℕ, zero, suc, ◌+◌, ◌-◌,
  ◌*◌, ◌/◌, ◌%◌, ◌^◌,
}
use climate.Common.Number.{u32_max, u128_max, parse_unsigned}

-- An IPv4 address is its 32-bit number, an IPv6 address its 128-bit one.
pub data IpAddr : Type 0 where
  v4 v6 : ℕ → IpAddr

pub record Route : Type 0 where
  pub net : IpAddr
  pub prefix : ℕ
  pub gateway : Option IpAddr
  pub reject : Bool
  pub device : Text

abbrev pub rtf_up : ℕ
rtf_up = 0x1

abbrev pub rtf_gateway : ℕ
rtf_gateway = 0x2

abbrev pub rtf_reject : ℕ
rtf_reject = 0x200

-- `width - prefix` wraps in `u32`, and a shift by 128 or more leaves nothing to compare.
abbrev pub shift_of : ℕ → ℕ → ℕ
shift_of width prefix = (width + 2 ^ 32 - prefix) % 2 ^ 32

unfoldable pub same_prefix : ℕ → ℕ → ℕ → ℕ → Bool
same_prefix a b width prefix =
    let k = shift_of width prefix in if ltb k 128 then bit_xor a b / 2 ^ k == 0 else true

abbrev pub within : ℕ → IpAddr → IpAddr → Bool
within prefix (v4 net) (v4 ip) = same_prefix net ip 32 prefix
within prefix (v6 net) (v6 ip) = same_prefix net ip 128 prefix
within prefix _ _ = false

unfoldable pub contains : Route → IpAddr → Bool
contains route ip = within route.prefix route.net ip

abbrev pub is_none : Option IpAddr → Bool
is_none none = true
is_none (some gateway) = false

unfoldable pub on_link : Route → Bool
on_link route =
    is_none route.gateway
    && not route.reject
    && ltb 0 route.prefix
    && not (text_eq route.device (codes "lo"))

unfoldable pub hex32 : Text → Option ℕ
hex32 field = parse_unsigned 16 u32_max field

-- `to_ne_bytes` of a word, read as an address from its first byte on.
unfoldable pub swap_bytes : ℕ → ℕ
swap_bytes w =
    w % 256 * 2 ^ 24 + w / 2 ^ 8 % 256 * 2 ^ 16 + w / 2 ^ 16 % 256 * 2 ^ 8 + w / 2 ^ 24 % 256

unfoldable pub count_ones_in : ℕ → ℕ → ℕ
count_ones_in zero n = 0
count_ones_in (suc bits) n = n % 2 + count_ones_in bits (n / 2)

unfoldable pub count_ones : ℕ → ℕ
unfolding count_ones_in
count_ones n = count_ones_in 32 n

infixl 5 ◌>>=◌
abbrev ◌>>=◌ {ℓ κ} : {A : Type ℓ} {B : Type κ} → Option A → (A → Option B) → Option B
none >>= f = none
some a >>= f = f a

abbrev pub has_flag : ℕ → ℕ → Bool
has_flag flags flag = not (bit_and flags flag == 0)

-- `fields.get(i)?` and the closures `v4` and `v6`.
abbrev field_v4 : Text → Option IpAddr
field_v4 field = do word ← hex32 field; some (v4 (swap_bytes word))

abbrev field_v6 : Text → Option IpAddr
field_v6 field = do bits ← parse_unsigned 16 u128_max field; some (v6 bits)

-- `gateway: match … { true => v(fields.get(i)?), false => None }`: a field that is missing ends the
-- line, one that cannot be read leaves the route without a gateway.
abbrev gateway_of : (Text → Option IpAddr) → Bool → Option Text → Option (Option IpAddr)
gateway_of read false field = some none
gateway_of read true none = none
gateway_of read true (some field) = some (read field)

-- The fields of a line once its flags are read.
abbrev v4_fields : List Text → ℕ → Option Route
v4_fields fields flags = do
  net_field ← get_elem? fields 1
  net ← field_v4 net_field
  mask_field ← get_elem? fields 7
  mask ← hex32 mask_field
  gateway ← gateway_of field_v4 (has_flag flags rtf_gateway) (get_elem? fields 2)
  device ← get_elem? fields 0
  some (record {
    net = net;
    prefix = count_ones mask;
    gateway = gateway;
    reject = has_flag flags rtf_reject;
    device = device;
  })

unfoldable pub v4_route : Text → Option Route
v4_route line = do
  let fields = split_whitespace line
  flags_field ← get_elem? fields 3
  flags ← hex32 flags_field
  if has_flag flags rtf_up then v4_fields fields flags else none

abbrev v6_fields : List Text → ℕ → Option Route
v6_fields fields flags = do
  net_field ← get_elem? fields 0
  net ← field_v6 net_field
  prefix_field ← get_elem? fields 1
  prefix ← hex32 prefix_field
  gateway ← gateway_of field_v6 (has_flag flags rtf_gateway) (get_elem? fields 4)
  device ← get_elem? fields 9
  some (record {
    net = net;
    prefix = prefix;
    gateway = gateway;
    reject = has_flag flags rtf_reject;
    device = device;
  })

unfoldable pub v6_route : Text → Option Route
v6_route line = do
  let fields = split_whitespace line
  flags_field ← get_elem? fields 8
  flags ← hex32 flags_field
  if has_flag flags rtf_up then v6_fields fields flags else none

abbrev keep : Option Route → List Route → List Route
keep none routes = routes
keep (some route) routes = route ∷ routes

abbrev pub filter_map : (Text → Option Route) → List Text → List Route
filter_map f [] = []
filter_map f (line ∷ rest) = keep (f line) (filter_map f rest)

-- `unwrap_or_default` of a file's text.
abbrev pub text_of : Option Text → Text
text_of none = []
text_of (some text) = text

unfoldable pub routes : (Text → Option Text) → List Route
routes read_to_string =
    filter_map v4_route (drop 1 (lines (text_of (read_to_string (codes "/proc/net/route")))))
    ++ filter_map v6_route (lines (text_of (read_to_string (codes "/proc/net/ipv6_route"))))
