-- ===== src/Localnet/Resolv.antt =====
-- `resolv_conf` of src/localnet.rs: the container's /etc/resolv.conf. How an address is printed is
-- a parameter.
pub mod Contents
use climate.Common.{
  Text, codes, lines, starts_with, ◌==◌, ◌&&◌, ◌||◌, not, if◌then◌else◌, Option, none, some, List,
  [], ◌∷◌, ◌++◌, Bool, true, false, ℕ, ◌/◌, ◌^◌,
}
use climate.Localnet.Route.{IpAddr, v4, v6, Route, text_of}

-- `writeln!`
abbrev pub write_line : Text → Text → Text
write_line text line = text ++ (line ++ 10 ∷ [])

-- fe80::/10
abbrev pub is_link_local : IpAddr → Bool
is_link_local (v4 ip) = false
is_link_local (v6 ip) = ip / 2 ^ 118 == 0x3fa

-- The round for one route.
abbrev pub write_server : (IpAddr → Text) → Text → ℕ → Option IpAddr → Text
write_server show_ip text prefix none = text
write_server show_ip text prefix (some gateway) =
    if prefix == 0 && not (is_link_local gateway)
    then write_line text (codes "nameserver " ++ show_ip gateway)
    else text

unfoldable pub write_servers : (IpAddr → Text) → List Route → Text → Text
write_servers show_ip [] text = text
write_servers show_ip (r ∷ rs) text =
    write_servers show_ip rs (write_server show_ip text r.prefix r.gateway)

abbrev pub is_domain_line : Text → Bool
is_domain_line line = starts_with line (codes "search") || starts_with line (codes "domain")

unfoldable pub write_domains : List Text → Text → Text
write_domains [] text = text
write_domains (line ∷ rest) text =
    write_domains rest (if is_domain_line line then write_line text line else text)

unfoldable pub resolv_conf : (IpAddr → Text) → List Route → Option Text → Text
resolv_conf show_ip routes host =
    write_domains (lines (text_of host)) (write_servers show_ip routes [])
