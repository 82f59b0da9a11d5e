-- ===== src/Forward/Mirrors/Tests.antt =====
-- Two scans on concrete ports: a service on 8080 of the host, one on 3000 of the container.
use climate.Common.{
  ◌==◌, List, [], ◌∷◌, Bool, true, false, ℕ, ◌≤◌, ◌≡◌, ◌⊎◌, refl, arith, length, ltb,
}
use climate.Forward.Mirrors.{Mirror, Scan, ports_of, push_mirrors, rescan}
use climate.Forward.Mirrors.Count.{
  IsUnique, IsVisit, mirrors_of, mirrors_of-rescan, occurrences, opened,
}
use climate.Forward.Mirrors.Steady.{Sees, rescan-IsExclusive, rescan_stopped, rescan_steady}

abbrev pub in_order : List ℕ → List ℕ
in_order ports = ports

pub in_order-IsVisit : IsVisit in_order
in_order-IsVisit p ports = refl

abbrev pub two : ℕ → List ℕ
two port = 5 ∷ 6 ∷ []

abbrev pub first_scan : Scan
first_scan = record {
  host = 8080 ∷ [];
  container = 3000 ∷ [];
  listen_inside = two;
  listen_here = two;
}

pub one-IsUnique : (q : ℕ) → IsUnique (q ∷ [])
one-IsUnique q p = ground arith

two-IsUnique : (p : ℕ) → occurrences p (8080 ∷ 3000 ∷ []) ≤ 1
two-IsUnique p = ground arith

pub two_sockets : (way : Bool) (p : ℕ) → length (opened first_scan way p) ≤ 2
two_sockets true p = omega arith
two_sockets false p = omega arith

abbrev on_host : ℕ → Bool
on_host p = p == 8080

abbrev in_container : ℕ → Bool
in_container p = p == 3000

no_mirrors-Sees : Sees on_host in_container [] first_scan
no_mirrors-Sees = record {
  unique_host = one-IsUnique 8080;
  unique_container = one-IsUnique 3000;
  sees_host = λ p. ground arith;
  sees_container = λ p. ground arith;
}

abbrev mirrors_after : List Mirror
mirrors_after =
    record { listener = 5; port = 8080; inbound = false }
    ∷ record { listener = 6; port = 8080; inbound = false }
    ∷ record { listener = 5; port = 3000; inbound = true }
    ∷ record { listener = 6; port = 3000; inbound = true }
    ∷ []

first_rescan : rescan in_order first_scan [] ≡ mirrors_after
unfolding rescan ports_of push_mirrors
first_rescan = refl

abbrev second_scan : Scan
second_scan = record {
  host = 8080 ∷ 3000 ∷ [];
  container = 8080 ∷ 3000 ∷ [];
  listen_inside = two;
  listen_here = two;
}

after-Sees : Sees on_host in_container (rescan in_order first_scan []) second_scan
after-Sees = record {
  unique_host = two-IsUnique;
  unique_container = two-IsUnique;
  sees_host = λ p. rw first_rescan (ground arith);
  sees_container = λ p. rw first_rescan (ground arith);
}

mirrors_of-rescan_example : mirrors_of 3000 true (rescan in_order first_scan []) ≡ 2
mirrors_of-rescan_example =
    mirrors_of-rescan in_order first_scan [] 3000 true in_order-IsVisit (one-IsUnique 8080)
      (one-IsUnique 3000)

rescan-IsExclusive_example :
    (mirrors_of 3000 true (rescan in_order first_scan []) ≡ 0)
    ⊎ (mirrors_of 3000 false (rescan in_order first_scan []) ≡ 0)
rescan-IsExclusive_example =
    rescan-IsExclusive in_order in_order-IsVisit first_scan [] (one-IsUnique 8080)
      (one-IsUnique 3000) 3000

rescan_stopped_example : mirrors_of 8080 true (rescan in_order first_scan []) ≡ 0
rescan_stopped_example =
    rescan_stopped in_order in_order-IsVisit on_host in_container first_scan [] no_mirrors-Sees 8080
      true refl

some_left : ltb 0 (mirrors_of 3000 true (rescan in_order first_scan [])) ≡ true
some_left = rw first_rescan refl

rescan_steady_example :
    mirrors_of 3000 true (rescan in_order second_scan (rescan in_order first_scan []))
    ≡ mirrors_of 3000 true (rescan in_order first_scan [])
rescan_steady_example =
    rescan_steady in_order in_order-IsVisit on_host in_container first_scan [] no_mirrors-Sees
      on_host in_container second_scan 3000 true after-Sees refl (ground (arith, some_left))
