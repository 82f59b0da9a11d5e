-- ===== src/Forward/Loop/Tests.antt =====
-- A loop of two rounds: a scan, and the event of the quit pipe.
use climate.Common.{List, [], ◌∷◌, true, false, inl, refl, arith}
use climate.Forward.Mirrors.Tests.{
  in_order, in_order-IsVisit, first_scan, one-IsUnique, two_sockets,
}
use climate.Forward.Loop.{Round, ready, forward_loop, start_at}
use climate.Forward.Loop.Invariant.{
  IsSane, IsScan, IsSpaced, scan_times, forward_loop-IsSane, forward_loop-IsSpaced,
}

abbrev rounds : List Round
rounds =
    record { now = 5; later = 7; scan = first_scan; polled = ready false (true ∷ []) }
    ∷ record { now = 1000000009; later = 1000000011; scan = first_scan; polled = ready true [] }
    ∷ []

first_scan-IsScan : IsScan first_scan
first_scan-IsScan = record {
  host = one-IsUnique 8080;
  container = one-IsUnique 3000;
  few = two_sockets;
}

nothing-IsSane : IsSane []
nothing-IsSane = record { exclusive = λ p. inl refl; bounded = λ p way. omega arith }

forward_loop-IsSane_example : IsSane (forward_loop in_order rounds (start_at 5)).0.mirrors
forward_loop-IsSane_example =
    forward_loop-IsSane in_order in_order-IsVisit rounds (start_at 5)
      (first_scan-IsScan, (first_scan-IsScan, tt)) nothing-IsSane

forward_loop-IsSpaced_example :
    IsSpaced 5 (scan_times (forward_loop in_order rounds (start_at 5)).1)
forward_loop-IsSpaced_example =
    forward_loop-IsSpaced in_order rounds (start_at 5) (omega arith, (omega arith, tt))
