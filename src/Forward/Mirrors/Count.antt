-- ===== src/Forward/Mirrors/Count.antt =====
-- How many mirrors a port has in each direction, before and after a scan.
use climate.Common.{
  if◌then◌else◌, ◌==◌, ◌&&◌, ◌||◌, not, retain, List, [], ◌∷◌, ◌++◌, Bool, true, false, ℕ, ◌+◌, ◌*◌,
  ◌≤◌, length, ltb, ◌≡◌, refl, arith, ◌∙◌,
}
use climate.Forward.Loopback.{member, insert}
use climate.Forward.Mirrors.{
  Mirror, Scan, difference, same_way, ports_of, mirrors_on, push_mirrors, kept, rescan,
}

abbrev pub occurrences : ℕ → List ℕ → ℕ
occurrences p [] = 0
occurrences p (q ∷ qs) = (if q == p then 1 else 0) + occurrences p qs

-- A list that stands for a set holds nothing twice.
abbrev pub IsUnique : List ℕ → Type 0
IsUnique xs = (p : ℕ) → occurrences p xs ≤ 1

abbrev pub mirrors_of : ℕ → Bool → List Mirror → ℕ
mirrors_of p way [] = 0
mirrors_of p way (m ∷ ms) =
    (if m.port == p && same_way way m.inbound then 1 else 0) + mirrors_of p way ms

pub member-occurrences : (p : ℕ) (xs : List ℕ) → member p xs ≡ ltb 0 (occurrences p xs)
member-occurrences p [] = refl
member-occurrences p (q ∷ qs) = ground (arith, member-occurrences p qs)

occurrences-retain :
    (p : ℕ) (f : ℕ → Bool) (xs : List ℕ)
    → occurrences p (retain f xs) ≡ (if f p then occurrences p xs else 0)
occurrences-retain p f [] = ground arith
occurrences-retain p f (q ∷ xs) = ground (arith, occurrences-retain p f xs)

pub member-difference :
    (p : ℕ) (a b : List ℕ) → member p (difference a b) ≡ (member p a && not (member p b))
member-difference p a b = ground (
  arith,
  member-occurrences p (difference a b),
  member-occurrences p a,
  occurrences-retain p (λ (q : ℕ). not (member q b)) a,
)

mirrors_of-append :
    (p : ℕ) (way : Bool) (a b : List Mirror)
    → mirrors_of p way (a ++ b) ≡ mirrors_of p way a + mirrors_of p way b
mirrors_of-append p way [] b = omega arith
mirrors_of-append p way (m ∷ a) b = omega (arith, mirrors_of-append p way a b)

member-append : (p : ℕ) (xs ys : List ℕ) → member p (xs ++ ys) ≡ (member p xs || member p ys)
member-append p [] ys = refl
member-append p (x ∷ xs) ys = ground (arith, member-append p xs ys)

pub member-insert : (p q : ℕ) (xs : List ℕ) → member p (insert q xs) ≡ (q == p || member p xs)
member-insert p q xs = ground (arith, member-append p xs (q ∷ []))

member-ports_of :
    (p : ℕ) (way : Bool) (ms : List Mirror)
    → member p (ports_of way ms) ≡ ltb 0 (mirrors_of p way ms)
unfolding ports_of
member-ports_of p way [] = refl
member-ports_of p way (m ∷ ms) =
    ground (arith, member-insert p m.port (ports_of way ms), member-ports_of p way ms)

mirrors_of-retain :
    (p : ℕ) (way : Bool) (inbound outbound : List ℕ) (ms : List Mirror)
    → mirrors_of p way (retain (kept inbound outbound) ms)
      ≡ (if (if way then member p inbound else member p outbound) then mirrors_of p way ms else 0)
mirrors_of-retain p way inbound outbound [] = ground arith
mirrors_of-retain p way inbound outbound (m ∷ ms) =
    ground (arith, mirrors_of-retain p way inbound outbound ms)

mirrors_of-mirrors_on :
    (p : ℕ) (way : Bool) (port : ℕ) (way' : Bool) (fds : List ℕ)
    → mirrors_of p way (mirrors_on port way' fds)
      ≡ (if port == p && same_way way way' then length fds else 0)
mirrors_of-mirrors_on p way port way' [] = ground arith
mirrors_of-mirrors_on p way port way' (fd ∷ fds) =
    ground (arith, mirrors_of-mirrors_on p way port way' fds)

mirrors_of-push_mirrors :
    (p : ℕ) (way way' : Bool) (open_port : ℕ → List ℕ) (ports : List ℕ) (ms : List Mirror)
    → mirrors_of p way (push_mirrors way' open_port ports ms)
      ≡ mirrors_of p way ms
        + (if same_way way way' then occurrences p ports * length (open_port p) else 0)
unfolding push_mirrors
mirrors_of-push_mirrors p way way' open_port [] ms = ground arith
mirrors_of-push_mirrors p way way' open_port (port ∷ ports) ms = grind (
  arith,
  mirrors_of-push_mirrors p way way' open_port ports (ms ++ mirrors_on port way' (open_port port)),
  mirrors_of-append p way ms (mirrors_on port way' (open_port port)),
  mirrors_of-mirrors_on p way port way' (open_port port),
)

-- Something other than a mirror listens on the port, as far as the scan can tell.
abbrev pub serves_host : Scan → List Mirror → ℕ → Bool
serves_host s ms p = member p s.host && mirrors_of p true ms == 0

abbrev pub serves_container : Scan → List Mirror → ℕ → Bool
serves_container s ms p = member p s.container && mirrors_of p false ms == 0

-- The mirrors that the port ought to have in a direction: exactly one side serves it.
abbrev pub is_wanted : Scan → List Mirror → ℕ → Bool → Bool
is_wanted s ms p true = serves_container s ms p && not (serves_host s ms p)
is_wanted s ms p false = serves_host s ms p && not (serves_container s ms p)

abbrev pub opened : Scan → Bool → ℕ → List ℕ
opened s true p = s.listen_here p
opened s false p = s.listen_inside p

-- The sets that `rescan` computes.
abbrev host_of : Scan → List Mirror → List ℕ
host_of s ms = difference s.host (ports_of true ms)

abbrev container_of : Scan → List Mirror → List ℕ
container_of s ms = difference s.container (ports_of false ms)

abbrev outbound_of : Scan → List Mirror → List ℕ
outbound_of s ms = difference (host_of s ms) (container_of s ms)

abbrev inbound_of : Scan → List Mirror → List ℕ
inbound_of s ms = difference (container_of s ms) (host_of s ms)

occurrences-difference :
    (p : ℕ) (a b : List ℕ)
    → occurrences p (difference a b) ≡ (if member p b then 0 else occurrences p a)
occurrences-difference p a b = ground (arith, occurrences-retain p (λ (q : ℕ). not (member q b)) a)

member-host_of :
    (s : Scan) (ms : List Mirror) (p : ℕ) → member p (host_of s ms) ≡ serves_host s ms p
member-host_of s ms p =
    ground (arith, member-difference p s.host (ports_of true ms), member-ports_of p true ms)

member-container_of :
    (s : Scan) (ms : List Mirror) (p : ℕ) → member p (container_of s ms) ≡ serves_container s ms p
member-container_of s ms p =
    ground (arith, member-difference p s.container (ports_of false ms), member-ports_of p false ms)

module _ (s : Scan) (ms : List Mirror) (p : ℕ) where
  member-inbound_of : member p (inbound_of s ms) ≡ is_wanted s ms p true
  member-inbound_of = ground (
    arith,
    member-difference p (container_of s ms) (host_of s ms),
    member-host_of s ms p,
    member-container_of s ms p,
  )

  member-outbound_of : member p (outbound_of s ms) ≡ is_wanted s ms p false
  member-outbound_of = ground (
    arith,
    member-difference p (host_of s ms) (container_of s ms),
    member-host_of s ms p,
    member-container_of s ms p,
  )

  -- How often a set of ports to open holds a port: once, if it is wanted and has no mirror.
  occurrences-inbound :
      IsUnique s.container
      → occurrences p (difference (inbound_of s ms) (ports_of true ms))
        ≡ (if is_wanted s ms p true && mirrors_of p true ms == 0 then 1 else 0)
  occurrences-inbound unique = ground (
    arith,
    occurrences-difference p (inbound_of s ms) (ports_of true ms),
    occurrences-difference p (container_of s ms) (host_of s ms),
    occurrences-difference p s.container (ports_of false ms),
    member-occurrences p s.container,
    member-ports_of p true ms,
    member-ports_of p false ms,
    member-host_of s ms p,
    unique p,
  )

  occurrences-outbound :
      IsUnique s.host
      → occurrences p (difference (outbound_of s ms) (ports_of false ms))
        ≡ (if is_wanted s ms p false && mirrors_of p false ms == 0 then 1 else 0)
  occurrences-outbound unique = ground (
    arith,
    occurrences-difference p (outbound_of s ms) (ports_of false ms),
    occurrences-difference p (host_of s ms) (container_of s ms),
    occurrences-difference p s.host (ports_of true ms),
    member-occurrences p s.host,
    member-ports_of p true ms,
    member-ports_of p false ms,
    member-container_of s ms p,
    unique p,
  )

-- `visit` walks a set: it gives each member as often as the set holds it.
abbrev pub IsVisit : (List ℕ → List ℕ) → Type 0
IsVisit visit = (p : ℕ) (xs : List ℕ) → occurrences p (visit xs) ≡ occurrences p xs

-- the sockets for a port that is opened once or not at all
times_once : (k n : ℕ) (b : Bool) → k ≡ (if b then 1 else 0) → k * n ≡ (if b then n else 0)
times_once k n true h = rw h (omega arith)
times_once k n false h = rw h (omega arith)

mirrors_of-two_pushes :
    (p : ℕ) (way : Bool) (s : Scan) (inside here : List ℕ) (ms : List Mirror)
    → mirrors_of p way
        (push_mirrors true s.listen_here here (push_mirrors false s.listen_inside inside ms))
      ≡ mirrors_of p way ms
        + (if way
            then occurrences p here * length (s.listen_here p)
            else occurrences p inside * length (s.listen_inside p))
mirrors_of-two_pushes p way s inside here ms = ground (
  arith,
  mirrors_of-push_mirrors p way true s.listen_here here
      (push_mirrors false s.listen_inside inside ms),
  mirrors_of-push_mirrors p way false s.listen_inside inside ms,
)

-- What a scan leaves, port by port and direction by direction: mirrors that are no longer wanted
-- are gone, those that are wanted stay, and a wanted port without one gets the sockets that could
-- be made for it.
pub mirrors_of-rescan :
    (visit : List ℕ → List ℕ) (s : Scan) (ms : List Mirror) (p : ℕ) (way : Bool)
    → IsVisit visit
    → IsUnique s.host
    → IsUnique s.container
    → mirrors_of p way (rescan visit s ms) ≡ (
        if is_wanted s ms p way
        then (if mirrors_of p way ms == 0 then length (opened s way p) else mirrors_of p way ms)
        else 0)
unfolding rescan
mirrors_of-rescan visit s ms p true law host container =
    let inside = difference (outbound_of s ms) (ports_of false ms) in
    let here = difference (inbound_of s ms) (ports_of true ms) in
    ground (
      arith,
      mirrors_of-two_pushes p true s (visit inside) (visit here)
          (retain (kept (inbound_of s ms) (outbound_of s ms)) ms),
      mirrors_of-retain p true (inbound_of s ms) (outbound_of s ms) ms,
      member-inbound_of s ms p,
      times_once (occurrences p (visit here)) (length (s.listen_here p))
          (is_wanted s ms p true && mirrors_of p true ms == 0)
          (law p here ∙ occurrences-inbound s ms p container),
    )
mirrors_of-rescan visit s ms p false law host container =
    let inside = difference (outbound_of s ms) (ports_of false ms) in
    let here = difference (inbound_of s ms) (ports_of true ms) in
    ground (
      arith,
      mirrors_of-two_pushes p false s (visit inside) (visit here)
          (retain (kept (inbound_of s ms) (outbound_of s ms)) ms),
      mirrors_of-retain p false (inbound_of s ms) (outbound_of s ms) ms,
      member-outbound_of s ms p,
      times_once (occurrences p (visit inside)) (length (s.listen_inside p))
          (is_wanted s ms p false && mirrors_of p false ms == 0)
          (law p inside ∙ occurrences-outbound s ms p host),
    )
