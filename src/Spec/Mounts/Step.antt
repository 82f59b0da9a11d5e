-- ===== src/Spec/Mounts/Step.antt =====
-- The mounts of a run against its mount points and against `check`.
use climate.Common.{
  Text, not, List, [], ◌∷◌, map, Bool, true, false, Result, ok, err, ◌>>=◌, ◌>>◌, >>=-eq-ok, guard,
  ◌≡◌, refl, ap, ◌∙◌, All,
}
use climate.Common.Error.{Error, mounts_root}
use climate.Spec.Paths.{is_root}
use climate.Spec.Mounts.{
  Host, Share, MountPoint, parse_mount, ensure_source, expand, extra_mount, extra_mounts_of,
  check_mount, check_mounts,
}

abbrev pub points_of : {D : Type 0} → Result Error (D × List MountPoint) → List Text
points_of (ok (disk, points)) = map (λ p. p.path) points
points_of (err e) = []

module _ {D : Type 0} (host : Host D) where
  -- What a round that succeeds has read and made.
  record Made (disk : D) (entry : Text) (r : D × Share) : Type 0 where
    share : Share
    source : Text
    destination : Text
    read : parse_mount entry ≡ ok share
    from : expand host share.source ≡ ok source
    safe : is_root source ≡ false
    onto : expand host share.destination ≡ ok destination
    made : r.1 ≡ record { source = source; destination = destination; readonly = share.readonly }

  guard-eq-ok :
      (b : Bool) (e : Error) (k : Result Error (D × Share)) (r : D × Share)
      → (guard (not b) e >> k) ≡ ok r
      → (b ≡ false) × (k ≡ ok r)
  guard-eq-ok true e k r h = cc
  guard-eq-ok false e k r h = (refl, h)

  of_ok : (p r : D × Share) → Path (Result Error (D × Share)) (ok p) (ok r) → r.1 ≡ p.1
  of_ok p r h = cc

  extra_mount-Made :
      (disk : D) (entry : Text) (r : D × Share)
      → extra_mount host disk entry ≡ ok r
      → Made disk entry r
  unfolding extra_mount
  extra_mount-Made disk entry r h =
      let (share, read, h1) = >>=-eq-ok (parse_mount entry) _ h in
      let (source, from, h2) = >>=-eq-ok (expand host share.source) _ h1 in
      let (safe, h3) = guard-eq-ok (is_root source) mounts_root _ r h2 in
      let (disk', there, h4) = >>=-eq-ok (ensure_source host disk share source) _ h3 in
      let (destination, onto, h5) = >>=-eq-ok (expand host share.destination) _ h4 in
      record {
        share = share;
        source = source;
        destination = destination;
        read = read;
        from = from;
        safe = safe;
        onto = onto;
        made = of_ok (disk', _) r h5;
      }

  -- The share of an entry, whatever the disk holds.
  abbrev pub share_of : Text → Result Error Share
  share_of entry = do
    share ← parse_mount entry
    source ← expand host share.source
    destination ← expand host share.destination
    ok (record { source = source; destination = destination; readonly = share.readonly })

  abbrev pub shares_of : List Text → Result Error (List Share)
  shares_of [] = ok []
  shares_of (entry ∷ rest) = do share ← share_of entry; shares ← shares_of rest; ok (share ∷ shares)

  Made-share_of :
      (disk : D) (entry : Text) (r : D × Share) → Made disk entry r → share_of entry ≡ ok r.1
  Made-share_of disk entry r m = rw (m.read, m.from, m.onto, m.made) refl

  Made-check_mount :
      (disk : D) (entry : Text) (r : D × Share) → Made disk entry r → check_mount host entry ≡ ok tt
  unfolding check_mount
  Made-check_mount disk entry r m = rw (m.read, m.from, m.safe, m.onto) refl

  list_of : (p r : D × List Share) → Path (Result Error (D × List Share)) (ok p) (ok r) → r.1 ≡ p.1
  list_of p r h = cc

  pub extra_mounts_of-shares_of :
      (disk : D) (entries : List Text) (r : D × List Share)
      → extra_mounts_of host disk entries ≡ ok r
      → (shares_of entries ≡ ok r.1)
        × (check_mounts host entries ≡ ok tt)
        × All (λ s. is_root s.source ≡ false) r.1
  unfolding extra_mounts_of check_mounts
  extra_mounts_of-shares_of disk [] r h = rw (list_of (disk, []) r h) (refl, refl, tt)
  extra_mounts_of-shares_of disk (entry ∷ rest) r h =
      let (first, one, h1) = >>=-eq-ok (extra_mount host disk entry) _ h in
      let (others, more, h2) = >>=-eq-ok (extra_mounts_of host first.0 rest) _ h1 in
      let made = extra_mount-Made disk entry first one in
      let (shares, checked, safe) = extra_mounts_of-shares_of first.0 rest others more in
      rw (list_of (others.0, first.1 ∷ others.1) r h2) (
        rw (made.read, made.from, made.onto, shares, made.made) refl,
        rw (Made-check_mount disk entry first made) checked,
        (ap (λ (s : Share). is_root s.source) made.made ∙ made.safe, safe),
      )
