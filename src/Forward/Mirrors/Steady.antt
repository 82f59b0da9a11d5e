-- ===== src/Forward/Mirrors/Steady.antt =====
-- How the mirrors follow the services of the two sides from scan to scan.
use climate.Common.{
  ◌||◌, List, Bool, true, false, ℕ, ◌≤◌, ◌<◌, length, ltb, ◌≡◌, ◌⊎◌, arith, inl, inr, Bool-cases,
}
use climate.Forward.Loopback.{member}
use climate.Forward.Mirrors.{Mirror, Scan, rescan}
use climate.Forward.Mirrors.Count.{
  IsUnique, IsVisit, mirrors_of, mirrors_of-rescan, opened, is_wanted,
}

-- What a scan sees while `host` and `container` are the ports that services listen on: those, and
-- the mirrors, which are listening sockets too.
pub record Sees (host container : ℕ → Bool) (ms : List Mirror) (s : Scan) : Type 0 where
  pub unique_host : IsUnique s.host
  pub unique_container : IsUnique s.container
  pub sees_host : (p : ℕ) → member p s.host ≡ (host p || ltb 0 (mirrors_of p true ms))
  pub sees_container :
      (p : ℕ) → member p s.container ≡ (container p || ltb 0 (mirrors_of p false ms))

-- The service that a mirror of the direction leads to.
abbrev pub behind : (ℕ → Bool) → (ℕ → Bool) → Bool → ℕ → Bool
behind host container true p = container p
behind host container false p = host p

module _ (visit : List ℕ → List ℕ) (law : IsVisit visit) where
  -- After a scan no port is mirrored in both directions.
  pub rescan-IsExclusive :
      (s : Scan) (ms : List Mirror)
      → IsUnique s.host
      → IsUnique s.container
      → (p : ℕ)
      → (mirrors_of p true (rescan visit s ms) ≡ 0) ⊎ (mirrors_of p false (rescan visit s ms) ≡ 0)
  rescan-IsExclusive s ms host container p =
      let inward = mirrors_of-rescan visit s ms p true law host container in
      let outward = mirrors_of-rescan visit s ms p false law host container in
      elim (Bool-cases (is_wanted s ms p true)) [
        | inl wanted ↦ inr (ground arith)
        | inr unwanted ↦ inl (ground arith)
      ]

  -- A port never has more than two mirrors in a direction, one for each address family, if at most
  -- two sockets are made for it.
  pub rescan-IsBounded :
      (s : Scan) (ms : List Mirror)
      → IsUnique s.host
      → IsUnique s.container
      → ((way : Bool) (p : ℕ) → length (opened s way p) ≤ 2)
      → ((p : ℕ) (way : Bool) → mirrors_of p way ms ≤ 2)
      → (p : ℕ) (way : Bool) → mirrors_of p way (rescan visit s ms) ≤ 2
  rescan-IsBounded s ms host container few before p way =
      ground (arith, mirrors_of-rescan visit s ms p way law host container, few way p, before p way)

  module _ (host container : ℕ → Bool) (s : Scan) (ms : List Mirror)
      (sees : Sees host container ms s) where
    -- Once the service behind a mirror has stopped, the next scan takes the mirror down.
    pub rescan_stopped :
        (p : ℕ) (way : Bool)
        → behind host container way p ≡ false
        → mirrors_of p way (rescan visit s ms) ≡ 0
    rescan_stopped p true gone = ground (
      arith,
      mirrors_of-rescan visit s ms p true law sees.unique_host sees.unique_container,
      sees.sees_container p,
    )
    rescan_stopped p false gone = ground (
      arith,
      mirrors_of-rescan visit s ms p false law sees.unique_host sees.unique_container,
      sees.sees_host p,
    )

    -- A mirror that a scan has left is left by the next one too, if the service behind it still
    -- listens: the mirror itself, which the scan finds on the other side, does not bring it down.
    pub rescan_steady :
        (host' container' : ℕ → Bool) (s' : Scan) (p : ℕ) (way : Bool)
        → Sees host' container' (rescan visit s ms) s'
        → behind host' container' way p ≡ true
        → 0 < mirrors_of p way (rescan visit s ms)
        → mirrors_of p way (rescan visit s' (rescan visit s ms))
          ≡ mirrors_of p way (rescan visit s ms)
    rescan_steady host' container' s' p true again still some_in = ground (
      arith,
      rescan-IsExclusive s ms sees.unique_host sees.unique_container p,
      mirrors_of-rescan visit s' (rescan visit s ms) p true law again.unique_host
          again.unique_container,
      again.sees_container p,
    )
    rescan_steady host' container' s' p false again still some_out = ground (
      arith,
      rescan-IsExclusive s ms sees.unique_host sees.unique_container p,
      mirrors_of-rescan visit s' (rescan visit s ms) p false law again.unique_host
          again.unique_container,
      again.sees_host p,
    )
