-- ===== src/Localnet/Route/Lines.antt =====
-- The routing tables' lines, as the kernel prints them.
use climate.Common.{
  Text, split_whitespace, split_whitespace-join, join, IsField, All, if◌then◌else◌, some, none,
  List, [], ◌∷◌, ℕ, ◌^◌, ◌<◌, ◌≡◌, refl, arith,
}
use climate.Common.Number.{u32_max}
use climate.Common.Hex.{hex, hex-IsField, parse_unsigned-hex}
use climate.Localnet.Route.{
  v4, Route, hex32, swap_bytes, count_ones, has_flag, rtf_up, rtf_gateway, rtf_reject, v4_route,
}

hex32-hex : (w : ℕ) → w < 2 ^ 32 → hex32 (hex 8 w) ≡ some w
unfolding hex32
hex32-hex w h = parse_unsigned-hex 7 u32_max w h (omega arith)

hex32-hex_short : (w : ℕ) → w < 2 ^ 16 → hex32 (hex 4 w) ≡ some w
unfolding hex32
hex32-hex_short w h = parse_unsigned-hex 3 u32_max w h (omega arith)

-- An entry of /proc/net/route: four numbers, and the fields that are not read.
pub record Entry : Type 0 where
  pub device : Text
  pub net : ℕ
  pub gateway : ℕ
  pub flags : ℕ
  pub refcount : Text
  pub uses : Text
  pub metric : Text
  pub mask : ℕ
  pub rest : List Text

pub record IsEntry (e : Entry) : Type 0 where
  pub device : IsField e.device
  pub net : e.net < 2 ^ 32
  pub gateway : e.gateway < 2 ^ 32
  pub flags : e.flags < 2 ^ 16
  pub refcount : IsField e.refcount
  pub uses : IsField e.uses
  pub metric : IsField e.metric
  pub mask : e.mask < 2 ^ 32
  pub rest : All IsField e.rest

abbrev pub line_fields : Entry → List Text
line_fields e =
    hex 8 e.net
    ∷ hex 8 e.gateway
    ∷ hex 4 e.flags
    ∷ e.refcount
    ∷ e.uses
    ∷ e.metric
    ∷ hex 8 e.mask
    ∷ e.rest

-- The fields of a line are set apart by tabs.
abbrev pub line_of : Entry → Text
line_of e = join (9 ∷ []) (e.device ∷ line_fields e)

abbrev pub route_of : Entry → Route
route_of e = record {
  net = v4 (swap_bytes e.net);
  prefix = count_ones e.mask;
  gateway = if has_flag e.flags rtf_gateway then some (v4 (swap_bytes e.gateway)) else none;
  reject = has_flag e.flags rtf_reject;
  device = e.device;
}

line-split : (e : Entry) → IsEntry e → split_whitespace (line_of e) ≡ e.device ∷ line_fields e
line-split e h = split_whitespace-join 9 e.device (line_fields e) refl (
  h.device,
  (
    hex-IsField 7 e.net,
    (
      hex-IsField 7 e.gateway,
      (hex-IsField 3 e.flags, (h.refcount, (h.uses, (h.metric, (hex-IsField 7 e.mask, h.rest))))),
    ),
  ),
)

-- A line of the kernel's IPv4 table is read as the route that it shows, if the route is up, and is
-- skipped if it is not.
pub v4_route-line :
    (e : Entry)
    → IsEntry e
    → v4_route (line_of e) ≡ (if has_flag e.flags rtf_up then some (route_of e) else none)
unfolding v4_route
v4_route-line e h =
    rw
      (
        line-split e h,
        hex32-hex_short e.flags h.flags,
        hex32-hex e.net h.net,
        hex32-hex e.mask h.mask,
      )
      (ground (arith, hex32-hex e.gateway h.gateway))
