-- ===== src/Localnet/Egress/Best.antt =====
-- `egress` against the rule that it implements.
use climate.Common.{
  Text, ltb, ◌==◌, all, none, some, List, [], ◌∷◌, true, false, ℕ, ◌≤◌, ◌≡◌, refl, arith, In,
  retain-In, In-retain, In-all, all-In, inl, inr, Bool-cases, Option-cases, ap,
}
use climate.Localnet.Route.{IpAddr, Route, contains, on_link}
use climate.Localnet.Egress.{
  is_unicast, longest_prefix, at_least, first_device, matching, best_of, device_of, egress,
}

-- The route is in the table, contains the address, and no other that contains it is more specific.
pub record IsBest (routes : List Route) (ip : IpAddr) (r : Route) : Type 0 where
  pub listed : In r routes
  pub covers : contains r ip ≡ true
  pub longest : (r' : Route) → In r' routes → contains r' ip ≡ true → r'.prefix ≤ r.prefix

-- The greatest prefix is one of the list's, and no other exceeds it.
longest_prefix-some :
    (rs : List Route) (r : Route) → In r rs → (m : ℕ) × (longest_prefix rs ≡ some m)
unfolding longest_prefix
longest_prefix-some [] r i = elim i [ ]
longest_prefix-some (q ∷ rs) r i = (at_least q.prefix (longest_prefix rs), refl)

longest_prefix-In :
    (rs : List Route) (m : ℕ) → longest_prefix rs ≡ some m → (r : Route) × In r rs × (r.prefix ≡ m)
unfolding longest_prefix
longest_prefix-In [] m h = cc
longest_prefix-In (q ∷ rs) m h = elim (Option-cases (longest_prefix rs)) [
  | inl empty ↦ (q, inl refl, ground arith)
  | inr (n, e) ↦ elim (Bool-cases (ltb q.prefix n)) [
    | inl less ↦ let (r, i, same) = longest_prefix-In rs n e in (r, inr i, ground arith)
    | inr most ↦ (q, inl refl, ground arith)
  ]
]

longest_prefix-ge :
    (rs : List Route) (m : ℕ) → longest_prefix rs ≡ some m → (r : Route) → In r rs → r.prefix ≤ m
unfolding longest_prefix
longest_prefix-ge [] m h r i = elim i [ ]
longest_prefix-ge (q ∷ rs) m h r (inl e) = ground (arith, ap (λ (x : Route). x.prefix) e)
longest_prefix-ge (q ∷ rs) m h r (inr i) = elim (Option-cases (longest_prefix rs)) [
  | inl empty ↦ ground (arith, longest_prefix-some rs r i)
  | inr (n, e) ↦ ground (arith, longest_prefix-ge rs n e r i)
]

first_device-some :
    (best : List Route) (r : Route) → In r best → (d : Text) × (first_device best ≡ some d)
first_device-some [] r i = elim i [ ]
first_device-some (q ∷ best) r i = (q.device, refl)

module _ (routes : List Route) (ip : IpAddr) where
  -- The routes that `egress` looks at are the best ones.
  best_of-IsBest :
      (m : ℕ)
      → longest_prefix (matching routes ip) ≡ some m
      → (r : Route) → In r (best_of (matching routes ip) m)
      → IsBest routes ip r
  best_of-IsBest m h r i =
      let (j, top) = retain-In (λ q. q.prefix == m) r (matching routes ip) i in
      let (k, covers) = retain-In (λ q. contains q ip) r routes j in
      record {
        listed = k;
        covers = covers;
        longest = λ r' i' c. ground (
          arith,
          longest_prefix-ge (matching routes ip) m h r'
              (In-retain (λ q. contains q ip) r' routes i' c),
        );
      }

  IsBest-best_of :
      (m : ℕ)
      → longest_prefix (matching routes ip) ≡ some m
      → (r : Route) → IsBest routes ip r
      → In r (best_of (matching routes ip) m)
  IsBest-best_of m h r best =
      let covered = In-retain (λ q. contains q ip) r routes best.listed best.covers in
      let (top, i, e) = longest_prefix-In (matching routes ip) m h in
      let (j, c) = retain-In (λ q. contains q ip) top routes i in
      In-retain (λ q. q.prefix == m) r (matching routes ip) covered
        (ground (arith, longest_prefix-ge (matching routes ip) m h r covered, best.longest top j c))

  -- What an answer of `egress` rests on.
  egress-device_of :
      (d : Text)
      → egress routes ip ≡ some d
      → (is_unicast ip ≡ true)
        × ((m : ℕ) × (longest_prefix (matching routes ip) ≡ some m)
            × (device_of (best_of (matching routes ip) m) ≡ some d))
  unfolding egress
  egress-device_of d h = elim (Option-cases (longest_prefix (matching routes ip))) [
    | inl empty ↦ ground arith
    | inr (m, e) ↦ (ground arith, (m, e, ground arith))
  ]

  device_of-In :
      (best : List Route) (d : Text)
      → device_of best ≡ some d
      → (all on_link best ≡ true) × ((r : Route) × In r best × (r.device ≡ d))
  device_of-In [] d h = ground arith
  device_of-In (r ∷ rs) d h = (ground arith, (r, inl refl, ground arith))

  -- A destination is let out only on the device of a route that is one of the most specific ones
  -- that contain it, and that leads to it with no gateway, no rejection and not over the loopback;
  -- and only if it is a unicast address.
  pub egress_sound :
      (d : Text)
      → egress routes ip ≡ some d
      → (is_unicast ip ≡ true)
        × ((r : Route) × IsBest routes ip r × (on_link r ≡ true) × (r.device ≡ d))
  egress_sound d h =
      let (unicast, (m, longest, e)) = egress-device_of d h in
      let (every, (r, i, device)) = device_of-In (best_of (matching routes ip) m) d e in
      (
        unicast,
        (
          r,
          best_of-IsBest m longest r i,
          all-In on_link (best_of (matching routes ip) m) every r i,
          device,
        ),
      )

  -- If one of the most specific routes that contain a destination has a gateway, rejects, is a
  -- default route or is the loopback's, then the destination is refused, whatever the others say.
  pub egress_refuses :
      (r : Route) → IsBest routes ip r → on_link r ≡ false → egress routes ip ≡ none
  egress_refuses r best off = elim (Option-cases (egress routes ip)) [
    | inl refused ↦ refused
    | inr (d, e) ↦
        let (unicast, (m, longest, chosen)) = egress-device_of d e in
        let (every, rest) = device_of-In (best_of (matching routes ip) m) d chosen in
        let on =
          all-In on_link (best_of (matching routes ip) m) every r
            (IsBest-best_of m longest r best) in
        cc
  ]

  -- A unicast destination that some route contains is let out if every one of the most specific
  -- routes that contain it leads to it directly.
  pub egress_complete :
      (r : Route)
      → is_unicast ip ≡ true
      → IsBest routes ip r
      → ((q : Route) → IsBest routes ip q → on_link q ≡ true)
      → (d : Text) × (egress routes ip ≡ some d)
  unfolding egress
  egress_complete r unicast best every =
      let (m, e) =
        longest_prefix-some (matching routes ip) r
          (In-retain (λ q. contains q ip) r routes best.listed best.covers) in
      let on =
        In-all on_link (best_of (matching routes ip) m) (λ q i. every q (best_of-IsBest m e q i)) in
      let (d, chosen) =
        first_device-some (best_of (matching routes ip) m) r (IsBest-best_of m e r best) in
      (d, rw (unicast, e, on, chosen))
