-- ===== src/Forward/Mirrors.antt =====
-- `Mirror` and `rescan` of src/forward.rs: which ports are mirrored, and which way. What a scan
-- finds is given by `Scan`: the two sets of listening ports, and the sockets that the helper
-- (`request(helper, OP_LISTEN, port)`) and this process (`listen_on(port)`) make for a port. A
-- port is asked for at most once in a scan. `visit` is the order in which a `HashSet` is walked.
pub mod Count
pub mod Steady
pub mod Tests
use climate.Common.{
  if◌then◌else◌, ◌==◌, ◌&&◌, not, any, retain, List, [], ◌∷◌, ◌++◌, map, Bool, true, false, ℕ,
  length,
}
use climate.Forward.Loopback.{member, insert}

-- A descriptor is named by its number.
pub record Mirror : Type 0 where
  pub listener : ℕ
  pub port : ℕ
  pub inbound : Bool

pub record Scan : Type 0 where
  pub host : List ℕ
  pub container : List ℕ
  pub listen_inside : ℕ → List ℕ
  pub listen_here : ℕ → List ℕ

-- `&a - &b`
abbrev pub difference : List ℕ → List ℕ → List ℕ
difference a b = retain (λ p. not (member p b)) a

abbrev pub same_way : Bool → Bool → Bool
same_way true b = b
same_way false b = not b

-- The ports of the mirrors of one direction, as `collect` puts them in a set.
unfoldable pub ports_of : Bool → List Mirror → List ℕ
ports_of way [] = []
ports_of way (m ∷ ms) =
    let rest = ports_of way ms in if same_way way m.inbound then insert m.port rest else rest

-- The mirrors that one socket each is made for.
abbrev pub mirrors_on : ℕ → Bool → List ℕ → List Mirror
mirrors_on port way [] = []
mirrors_on port way (fd ∷ fds) =
    record { listener = fd; port = port; inbound = way } ∷ mirrors_on port way fds

-- `for port in ports { for listener in open(port) { mirrors.push(…) } }`
unfoldable pub push_mirrors : Bool → (ℕ → List ℕ) → List ℕ → List Mirror → List Mirror
push_mirrors way open_port [] mirrors = mirrors
push_mirrors way open_port (port ∷ ports) mirrors =
    push_mirrors way open_port ports (mirrors ++ mirrors_on port way (open_port port))

abbrev pub kept : List ℕ → List ℕ → Mirror → Bool
kept inbound outbound m = if m.inbound then member m.port inbound else member m.port outbound

unfoldable pub rescan : (List ℕ → List ℕ) → Scan → List Mirror → List Mirror
rescan visit s mirrors =
    let ours_host = ports_of true mirrors in
    let ours_container = ports_of false mirrors in
    let host = difference s.host ours_host in
    let container = difference s.container ours_container in
    let outbound = difference host container in
    let inbound = difference container host in
    push_mirrors true s.listen_here (visit (difference inbound ours_host)) (
      push_mirrors false s.listen_inside (visit (difference outbound ours_container))
        (retain (kept inbound outbound) mirrors))
