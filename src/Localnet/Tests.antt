-- ===== src/Localnet/Tests.antt =====
-- The routes of a machine on 192.168.1.0/24 behind 192.168.1.1.
use climate.Common.{
  Text, codes, none, some, List, [], ◌∷◌, ◌++◌, map, retain, lines, Bool, true, false, ◌≤◌, ◌≡◌,
  ◌↔◌, ◌/◌, ◌^◌, refl, arith, In, inl, inr, text_eq, ap,
}
use climate.Localnet.Route.{IpAddr, v4, Route, same_prefix, contains, on_link, v4_route}
use climate.Localnet.Route.Prefix.{same_prefix_iff}
use climate.Localnet.Route.Lines.{Entry, IsEntry, line_of, route_of, v4_route-line}
use climate.Localnet.Egress.{is_unicast, longest_prefix, egress}
use climate.Localnet.Egress.Best.{IsBest, egress_sound, egress_refuses}
use climate.Localnet.Resolv.{resolv_conf, is_domain_line}
use climate.Localnet.Resolv.Contents.{server_line, servers, unlines, resolv_conf-unlines}

same_prefix_iff_example :
    (same_prefix 0xc0a8_0105 0xc0a8_0100 32 24 ≡ true) ↔ (0xc0a8_0105 / 2 ^ 8 ≡ 0xc0a8_0100 / 2 ^ 8)
same_prefix_iff_example =
    same_prefix_iff 0xc0a8_0105 0xc0a8_0100 32 24 (omega arith) (omega arith) (omega arith)
      (omega arith)

abbrev entry : Entry
entry = record {
  device = codes "eth0";
  net = 0x0001_a8c0;
  gateway = 0;
  flags = 1;
  refcount = codes "0";
  uses = codes "0";
  metric = codes "100";
  mask = 0x00ff_ffff;
  rest = [];
}

entry-IsEntry : IsEntry entry
entry-IsEntry = record {
  device = (refl, (refl, (refl, (refl, (refl, tt)))));
  net = omega arith;
  gateway = omega arith;
  flags = omega arith;
  refcount = (refl, (refl, tt));
  uses = (refl, (refl, tt));
  metric = (refl, (refl, (refl, (refl, tt))));
  mask = omega arith;
  rest = tt;
}

v4_route-line_example : v4_route (line_of entry) ≡ some (route_of entry)
v4_route-line_example = v4_route-line entry entry-IsEntry

abbrev local_net : Route
local_net = record {
  net = v4 0xc0a8_0100;
  prefix = 24;
  gateway = none;
  reject = false;
  device = codes "eth0";
}

abbrev default_route : Route
default_route = record {
  net = v4 0;
  prefix = 0;
  gateway = some (v4 0xc0a8_0101);
  reject = false;
  device = codes "eth0";
}

abbrev pub table : List Route
table = default_route ∷ local_net ∷ []

abbrev pub printer : IpAddr
printer = v4 0xc0a8_0105

abbrev elsewhere : IpAddr
elsewhere = v4 0x0808_0808

printer-egress : egress table printer ≡ some (codes "eth0")
unfolding egress is_unicast contains same_prefix longest_prefix on_link text_eq
printer-egress = refl

egress_sound_example :
    (is_unicast printer ≡ true)
    × ((r : Route) × IsBest table printer r × (on_link r ≡ true) × (r.device ≡ codes "eth0"))
egress_sound_example = egress_sound table printer (codes "eth0") printer-egress

refuted : (b : Bool) → b ≡ true → b ≡ false → ⊥
refuted b sure never = cc

default-longest :
    (r : Route) → In r table → contains r elsewhere ≡ true → r.prefix ≤ default_route.prefix
unfolding contains same_prefix
default-longest r (inl e) c = rw e (omega arith)
default-longest r (inr (inl e)) c =
    absurd (refuted (contains r elsewhere) c (ap (λ q. contains q elsewhere) e))
default-longest r (inr (inr i)) c = elim i [ ]

default-IsBest : IsBest table elsewhere default_route
unfolding contains same_prefix
default-IsBest = record { listed = inl refl; covers = refl; longest = default-longest }

egress_refuses_example : egress table elsewhere ≡ none
egress_refuses_example =
    egress_refuses table elsewhere default_route default-IsBest (unfold on_link in refl)

local-longest : (r : Route) → In r table → contains r printer ≡ true → r.prefix ≤ local_net.prefix
local-longest r (inl e) c = rw e (omega arith)
local-longest r (inr (inl e)) c = rw e (omega arith)
local-longest r (inr (inr i)) c = elim i [ ]

local-IsBest : IsBest table printer local_net
unfolding contains same_prefix
local-IsBest = record { listed = inr (inl refl); covers = refl; longest = local-longest }

-- The default route is not among the best ones.
printer-on_link : (q : Route) → IsBest table printer q → on_link q ≡ true
unfolding on_link text_eq
printer-on_link q best =
    settle q best.listed (best.longest local_net local-IsBest.listed local-IsBest.covers)
  where
    settle : (q : Route) → In q table → 24 ≤ q.prefix → on_link q ≡ true
    settle q (inl e) h = absurd (omega (arith, (rw e at h)))
    settle q (inr (inl e)) h = rw e refl
    settle q (inr (inr i)) h = elim i [ ]

abbrev show_ip : IpAddr → Text
show_ip ip = codes "192.168.1.1"

resolv_conf-unlines_example :
    resolv_conf show_ip table (some (codes "# by hand\nsearch lan\n"))
    ≡ unlines (
        map (server_line show_ip) (servers table)
        ++ retain is_domain_line (lines (codes "# by hand\nsearch lan\n")))
resolv_conf-unlines_example =
    resolv_conf-unlines show_ip table (some (codes "# by hand\nsearch lan\n"))
