-- ===== src/Localnet/Resolv/Contents.antt =====
-- The lines of the container's resolv.conf.
use climate.Common.{
  Text, codes, lines, retain, ◌==◌, ◌&&◌, not, if◌then◌else◌, Bool-cases, inl, inr, Option, none,
  some, List, [], ◌∷◌, ◌++◌, append_assoc, append-nil, map, map-append, ℕ, ◌≡◌, refl, sym, ◌∙◌,
}
use climate.Localnet.Route.{IpAddr, Route, text_of}
use climate.Localnet.Resolv.{
  is_link_local, write_server, write_servers, is_domain_line, write_domains, resolv_conf,
}

-- The gateways of the default routes, but for the link-local ones.
abbrev pub server_of : ℕ → Option IpAddr → List IpAddr
server_of prefix none = []
server_of prefix (some ip) = if prefix == 0 && not (is_link_local ip) then ip ∷ [] else []

abbrev pub servers : List Route → List IpAddr
servers [] = []
servers (r ∷ rs) = server_of r.prefix r.gateway ++ servers rs

abbrev pub unlines : List Text → Text
unlines [] = []
unlines (l ∷ ls) = l ++ (10 ∷ unlines ls)

abbrev pub server_line : (IpAddr → Text) → IpAddr → Text
server_line show_ip ip = codes "nameserver " ++ show_ip ip

unlines-append : (a b : List Text) → unlines (a ++ b) ≡ unlines a ++ unlines b
unlines-append [] b = refl
unlines-append (l ∷ a) b =
    rw (unlines-append a b) (sym (append_assoc l (10 ∷ unlines a) (unlines b)))

module _ (show_ip : IpAddr → Text) where
  write_server-unlines :
      (text : Text) (prefix : ℕ) (gateway : Option IpAddr)
      → write_server show_ip text prefix gateway
        ≡ text ++ unlines (map (server_line show_ip) (server_of prefix gateway))
  write_server-unlines text prefix none = sym (append-nil text)
  write_server-unlines text prefix (some ip) =
      elim (Bool-cases (prefix == 0 && not (is_link_local ip))) [
        | inl server ↦ rw server
        | inr other ↦ rw other (sym (append-nil text))
      ]

  write_servers-unlines :
      (rs : List Route) (text : Text)
      → write_servers show_ip rs text ≡ text ++ unlines (map (server_line show_ip) (servers rs))
  unfolding write_servers
  write_servers-unlines [] text = sym (append-nil text)
  write_servers-unlines (r ∷ rs) text =
      simp
        (write_servers-unlines rs, write_server-unlines, map-append, unlines-append, append_assoc)

write_domains-unlines :
    (ls : List Text) (text : Text)
    → write_domains ls text ≡ text ++ unlines (retain is_domain_line ls)
unfolding write_domains
write_domains-unlines [] text = sym (append-nil text)
write_domains-unlines (l ∷ ls) text = elim (Bool-cases (is_domain_line l)) [
  | inl domain ↦ rw (domain, write_domains-unlines ls) (simp append_assoc)
  | inr other ↦ rw (other, write_domains-unlines ls)
]

-- The file is one line for each default route with a gateway that is not link-local, in the order of
-- the routes, and behind them the host's own lines that set a search list or a domain; nothing else.
pub resolv_conf-unlines :
    (show_ip : IpAddr → Text) (rs : List Route) (host : Option Text)
    → resolv_conf show_ip rs host
      ≡ unlines
          (map (server_line show_ip) (servers rs) ++ retain is_domain_line (lines (text_of host)))
unfolding resolv_conf
resolv_conf-unlines show_ip rs host =
    write_domains-unlines (lines (text_of host)) (write_servers show_ip rs [])
    ∙ rw (write_servers-unlines, unlines-append)
