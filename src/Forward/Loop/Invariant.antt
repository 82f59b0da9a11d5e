-- ===== src/Forward/Loop/Invariant.antt =====
-- What holds all through the loop, and how its scans are spaced.
use climate.Common.{
  leb, leb→le, List, [], ◌∷◌, ◌++◌, Bool, true, false, ℕ, ◌+◌, ◌≤◌, ◌≡◌, ◌⊎◌, inl, inr, refl, ap,
  arith, All, length, Bool-cases,
}
use climate.Forward.Mirrors.{Mirror, Scan}
use climate.Forward.Mirrors.Count.{IsUnique, IsVisit, mirrors_of, opened}
use climate.Forward.Mirrors.Steady.{rescan-IsExclusive, rescan-IsBounded}
use climate.Forward.Loop.{
  go_on, Round, LoopState, Event, scanned, served, returned, Poll, failed, ready, waiting,
  scan_round, scan_events, forward_loop, scan_interval,
}

-- No port is mirrored both ways, and none more than twice one way.
pub record IsSane (ms : List Mirror) : Type 0 where
  pub exclusive : (p : ℕ) → (mirrors_of p true ms ≡ 0) ⊎ (mirrors_of p false ms ≡ 0)
  pub bounded : (p : ℕ) (way : Bool) → mirrors_of p way ms ≤ 2

-- A scan as the program makes it: sets of ports, and at most two sockets for a port.
pub record IsScan (s : Scan) : Type 0 where
  pub host : IsUnique s.host
  pub container : IsUnique s.container
  pub few : (way : Bool) (p : ℕ) → length (opened s way p) ≤ 2

abbrev pub IsRound : Round → Type 0
IsRound r = IsScan r.scan

go_on-IsSane :
    (p : Poll) (st : LoopState) (events : List Event) (more : LoopState × List Event)
    → IsSane st.mirrors
    → IsSane more.0.mirrors
    → IsSane (go_on p st events more).0.mirrors
go_on-IsSane failed st events more here later = here
go_on-IsSane (ready true flags) st events more here later = here
go_on-IsSane (ready false flags) st events more here later = later

module _ (visit : List ℕ → List ℕ) (law : IsVisit visit) where
  scan_round-IsSane :
      (r : Round) (st : LoopState)
      → IsScan r.scan
      → IsSane st.mirrors
      → IsSane (scan_round visit r st).mirrors
  unfolding scan_round
  scan_round-IsSane r st scan sane = elim (Bool-cases (leb st.due r.now)) [
    | inl due ↦ rw due (record {
      exclusive = rescan-IsExclusive visit law r.scan st.mirrors scan.host scan.container;
      bounded =
          rescan-IsBounded visit law r.scan st.mirrors scan.host scan.container scan.few
            sane.bounded;
    })
    | inr early ↦ rw early sane
  ]

  -- If no port is mirrored both ways, nor more than twice one way, then none is when the loop ends,
  -- whatever its rounds meet and however it ends, given that each scan finds sets of ports and that
  -- at most two sockets are made for a port.
  pub forward_loop-IsSane :
      (rounds : List Round) (st : LoopState)
      → All IsRound rounds
      → IsSane st.mirrors
      → IsSane (forward_loop visit rounds st).0.mirrors
  unfolding forward_loop
  forward_loop-IsSane [] st scans sane = sane
  forward_loop-IsSane (r ∷ rounds) st scans sane =
      let sane' = scan_round-IsSane r st scans.0 sane in
      go_on-IsSane r.polled (scan_round visit r st) (scan_events r st)
        (forward_loop visit rounds (scan_round visit r st)) sane'
        (forward_loop-IsSane rounds (scan_round visit r st) scans.1 sane')

-- The times of the scans.
abbrev pub scan_times : List Event → List ℕ
scan_times [] = []
scan_times (scanned t ∷ events) = t ∷ scan_times events
scan_times (served m ∷ events) = scan_times events
scan_times (returned ∷ events) = scan_times events

-- The first time is not before `due`, and each of the others an interval or more past the one
-- before it.
abbrev pub IsSpaced : ℕ → List ℕ → Type 0
IsSpaced due [] = Unit
IsSpaced due (t ∷ ts) = (due ≤ t) × IsSpaced (t + scan_interval) ts

-- The clock does not run backwards within a round.
abbrev pub IsForward : Round → Type 0
IsForward r = r.now ≤ r.later

IsSpaced-weaken : (due due' : ℕ) (ts : List ℕ) → due' ≤ due → IsSpaced due ts → IsSpaced due' ts
IsSpaced-weaken due due' [] le h = tt
IsSpaced-weaken due due' (t ∷ ts) le h = (omega arith, h.1)

scan_times-append : (a b : List Event) → scan_times (a ++ b) ≡ scan_times a ++ scan_times b
scan_times-append [] b = refl
scan_times-append (scanned t ∷ a) b = ap (λ ts. t ∷ ts) (scan_times-append a b)
scan_times-append (served m ∷ a) b = scan_times-append a b
scan_times-append (returned ∷ a) b = scan_times-append a b

scan_times-waiting : (ms : List Mirror) (flags : List Bool) → scan_times (waiting ms flags) ≡ []
scan_times-waiting [] flags = refl
scan_times-waiting (m ∷ ms) [] = refl
scan_times-waiting (m ∷ ms) (flag ∷ flags) = ground (arith, scan_times-waiting ms flags)

-- The events of a round in front of those of the rounds that follow.
go_on-IsSpaced :
    (p : Poll) (st : LoopState) (due : ℕ) (events : List Event) (more : LoopState × List Event)
    → ((ts : List ℕ) → IsSpaced st.due ts → IsSpaced due (scan_times events ++ ts))
    → IsSpaced st.due (scan_times more.1)
    → IsSpaced due (scan_times (go_on p st events more).1)
go_on-IsSpaced failed st due events more first rest =
    rw (scan_times-append events (returned ∷ [])) (first [] tt)
go_on-IsSpaced (ready true flags) st due events more first rest =
    rw (scan_times-append events (returned ∷ [])) (first [] tt)
go_on-IsSpaced (ready false flags) st due events more first rest =
    rw
      (
        scan_times-append events (waiting st.mirrors flags ++ more.1),
        scan_times-append (waiting st.mirrors flags) more.1,
        scan_times-waiting st.mirrors flags,
      )
      (first (scan_times more.1) rest)

module _ (visit : List ℕ → List ℕ) where
  scan_round-IsSpaced :
      (r : Round) (st : LoopState)
      → r.now ≤ r.later
      → (ts : List ℕ) → IsSpaced (scan_round visit r st).due ts
      → IsSpaced st.due (scan_times (scan_events r st) ++ ts)
  unfolding scan_round
  scan_round-IsSpaced r st forward ts h = elim (Bool-cases (leb st.due r.now)) [
    | inl due ↦ rw due (
      leb→le st.due r.now due,
      IsSpaced-weaken (r.later + scan_interval) (r.now + scan_interval) ts (omega arith)
          (rw due at h),
    )
    | inr early ↦ rw early (rw early at h)
  ]

  -- Scans go by the clock and not by the connections: two of them are never closer than the
  -- interval, and the first is not before the time at which it is due.
  pub forward_loop-IsSpaced :
      (rounds : List Round) (st : LoopState)
      → All IsForward rounds
      → IsSpaced st.due (scan_times (forward_loop visit rounds st).1)
  unfolding forward_loop
  forward_loop-IsSpaced [] st forward = tt
  forward_loop-IsSpaced (r ∷ rounds) st forward =
      go_on-IsSpaced r.polled (scan_round visit r st) st.due (scan_events r st)
        (forward_loop visit rounds (scan_round visit r st)) (scan_round-IsSpaced r st forward.0)
        (forward_loop-IsSpaced rounds (scan_round visit r st) forward.1)
