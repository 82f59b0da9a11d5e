-- ===== src/Spec/Mounts/Cover.antt =====
-- Every mount has its mount point, and no mount hands over the whole host.
use climate.Common.{
  Text, not, retain, Option, none, some, List, [], ◌∷◌, ◌++◌, map, map-append, append_assoc, Bool,
  true, false, Bool-cases, ok, two_steps-eq-ok, guard, ◌≡◌, refl, ap, sym, ◌∙◌, inl, inr, All,
  All-append, text_eq,
}
use climate.Common.Error.{mounts_root}
use climate.Config.{Network, full, no_network, localhost, localnet, RunConfig}
use climate.Spec.Paths.{is_root}
use climate.Spec.Mounts.{
  Host, Share, MountPoint, Mount, dir_point, file_point, tmpfs, bind, tmpfs_dirs,
  default_mount_dirs, host_net_paths, with_dir, is_root_dir, host_dir, check_host_dir, extra_mounts,
  check_mounts, net_files, host_net_files, generated_points, share_point, mountpoints, bind_share,
  added_mounts, points_for, mounts_for,
}
use climate.Spec.Mounts.Step.{extra_mounts_of-shares_of}

abbrev path_of : MountPoint → Text
path_of p = p.path

abbrev destination_of : Mount → Text
destination_of m = m.destination

abbrev dir_words : Option Text → List Text
dir_words = with_dir (λ d. d)

map-file_point : (files : List Text) → map path_of (map file_point files) ≡ files
map-file_point [] = refl
map-file_point (f ∷ files) = ap (λ l. f ∷ l) (map-file_point files)

map-bind_files : (files : List Text) → map destination_of (map (λ f. bind f f true) files) ≡ files
unfolding bind
map-bind_files [] = refl
map-bind_files (f ∷ files) = ap (λ l. f ∷ l) (map-bind_files files)

map-with_dir_points : (dir : Option Text) → map path_of (with_dir dir_point dir) ≡ dir_words dir
map-with_dir_points none = refl
map-with_dir_points (some d) = refl

map-with_dir_mounts :
    (dir : Option Text) → map destination_of (with_dir (λ d. bind d d false) dir) ≡ dir_words dir
unfolding bind
map-with_dir_mounts none = refl
map-with_dir_mounts (some d) = refl

share_paths :
    {D : Type 0} (host : Host D) (disk : D) (shares : List Share)
    → map path_of (map (share_point host disk) shares) ≡ map (λ s. s.destination) shares
share_paths host disk [] = refl
share_paths host disk (s ∷ shares) = elim (Bool-cases (host.is_file disk s.source)) [
  | inl file ↦ rw (file, share_paths host disk shares) refl
  | inr dir ↦ rw (dir, share_paths host disk shares) refl
]

share_mounts :
    (shares : List Share)
    → map destination_of (map bind_share shares) ≡ map (λ s. s.destination) shares
unfolding bind
share_mounts [] = refl
share_mounts (s ∷ shares) = ap (λ l. s.destination ∷ l) (share_mounts shares)

abbrev IsHarmless : Text → Type 0
IsHarmless path = is_root path ≡ false

retain-All :
    (f : Text → Bool) (paths : List Text) → All IsHarmless paths → All IsHarmless (retain f paths)
retain-All f [] h = tt
retain-All f (p ∷ paths) h = elim (Bool-cases (f p)) [
  | inl stays ↦ rw stays (h.0, retain-All f paths h.1)
  | inr goes ↦ rw goes (retain-All f paths h.1)
]

-- The paths that both lists are made of.
abbrev pub core_paths : Option Text → List Share → List Text → List Text
core_paths dir shares files = dir_words dir ++ (map (λ s. s.destination) shares ++ files)

module _ {D K : Type 0} (host : Host D) (run : RunConfig K) where
  points_for-paths :
      (resolv_conf : Text) (dir : Option Text) (shares : D × List Share)
      → map path_of (points_for host resolv_conf run dir shares)
        ≡ (default_mount_dirs ++ map (λ d. d.0) tmpfs_dirs)
          ++ (core_paths dir shares.1 (host_net_files host shares.0 run)
              ++ map path_of (generated_points resolv_conf run.network))
  points_for-paths resolv_conf dir (disk, shares) =
      simp (map-append, append_assoc, map-with_dir_points, share_paths, map-file_point)

  mounts_for-paths :
      (dir : Option Text) (shares : D × List Share)
      → map destination_of (mounts_for host run dir shares)
        ≡ map (λ d. d.0) tmpfs_dirs ++ core_paths dir shares.1 (host_net_files host shares.0 run)
  unfolding tmpfs
  mounts_for-paths dir (disk, shares) =
      simp (map-append, append_assoc, map-with_dir_mounts, share_mounts, map-bind_files)

  same_shares :
      (disk disk' : D) (r r' : D × List Share)
      → extra_mounts host disk run ≡ ok r
      → extra_mounts host disk' run ≡ ok r'
      → r.1 ≡ r'.1
  unfolding extra_mounts
  same_shares disk disk' r r' h h' =
      let a = (extra_mounts_of-shares_of host disk run.mount r h).0 in
      let b = (extra_mounts_of-shares_of host disk' run.mount r' h').0 in cc

  line_up :
      (resolv_conf : Text) (dir dir' : Option Text) (shares shares' : D × List Share)
      → dir ≡ dir'
      → shares.1 ≡ shares'.1
      → host_net_files host shares'.0 run ≡ host_net_files host shares.0 run
      → map path_of (points_for host resolv_conf run dir shares)
        ≡ default_mount_dirs
          ++ (map destination_of (mounts_for host run dir' shares')
              ++ map path_of (generated_points resolv_conf run.network))
  line_up resolv_conf dir dir' shares shares' d s net =
      points_for-paths resolv_conf dir shares
      ∙ rw (d, s, net) (simp append_assoc)
      ∙ sym (
          ap
            (λ (l : List Text).
              default_mount_dirs ++ (l ++ map path_of (generated_points resolv_conf run.network)))
            (mounts_for-paths dir' shares'))

  -- Each mount that is added has its mount point, in the order of the mounts; the other points are
  -- the directories that every container has mounts on and a resolv.conf that is written. It is
  -- asked for that both functions succeed, and that of the host's network files the same ones are
  -- there each time.
  pub mountpoints-added_mounts :
      (disk disk' : D) (resolv_conf : Text) (points : D × List MountPoint) (mounts : D × List Mount)
      → mountpoints host disk resolv_conf run ≡ ok points
      → added_mounts host disk' run ≡ ok mounts
      → host_net_files host mounts.0 run ≡ host_net_files host points.0 run
      → map path_of points.1
        ≡ default_mount_dirs
          ++ (map destination_of mounts.1 ++ map path_of (generated_points resolv_conf run.network))
  unfolding mountpoints added_mounts
  mountpoints-added_mounts disk disk' resolv_conf points mounts h h' net =
      let (dir, shares, e, e1, made) =
        two_steps-eq-ok (host_dir host run) (extra_mounts host disk run)
          (λ dir shares. (shares.0, points_for host resolv_conf run dir shares)) h in
      let (dir', shares', e', e1', made') =
        two_steps-eq-ok (host_dir host run) (extra_mounts host disk' run)
          (λ dir shares. (shares.0, mounts_for host run dir shares)) h' in
      let same_dir : dir ≡ dir' = cc in
      let same = same_shares disk disk' shares shares' e1 e1' in
      let net' =
        sym (ap (λ (m : D × List Mount). host_net_files host m.0 run) made')
        ∙ net
        ∙ ap (λ (p : D × List MountPoint). host_net_files host p.0 run) made in
      ap (λ (p : D × List MountPoint). map path_of p.1) made
      ∙ line_up resolv_conf dir dir' shares shares' same_dir same net'
      ∙ ap
          (λ (m : D × List Mount).
            default_mount_dirs
            ++ (map destination_of m.1 ++ map path_of (generated_points resolv_conf run.network)))
          (sym made')

  dir-safe :
      (dir : Option Text)
      → host_dir host run ≡ ok dir
      → check_host_dir host run ≡ ok tt
      → is_root_dir dir ≡ false
  unfolding check_host_dir
  dir-safe dir e checked = elim (Bool-cases (is_root_dir dir)) [
    | inl root ↦
        let refused : guard (not (is_root_dir dir)) mounts_root ≡ ok tt = rw e at checked in
        absurd (impossible (is_root_dir dir) root refused)
    | inr safe ↦ safe
  ]
    where
      impossible : (b : Bool) → b ≡ true → guard (not b) mounts_root ≡ ok tt → ⊥
      impossible true root h = cc
      impossible false root h = cc

  shares-All :
      (shares : List Share)
      → All (λ s. is_root s.source ≡ false) shares
      → All (λ m. is_root m.source ≡ false) (map bind_share shares)
  unfolding bind
  shares-All [] h = tt
  shares-All (s ∷ shares) h = (h.0, shares-All shares h.1)

  files-All :
      (files : List Text)
      → All IsHarmless files
      → All (λ m. is_root m.source ≡ false) (map (λ f. bind f f true) files)
  unfolding bind
  files-All [] h = tt
  files-All (f ∷ files) h = (h.0, files-All files h.1)

  net_files-All : (disk : D) (network : Network) → All IsHarmless (net_files host disk network)
  unfolding is_root text_eq
  net_files-All disk full = retain-All (host.exists disk) host_net_paths (refl, (refl, tt))
  net_files-All disk no_network = tt
  net_files-All disk localhost = tt
  net_files-All disk localnet = tt

  mounts_for-All :
      (dir : Option Text) (shares : D × List Share)
      → is_root_dir dir ≡ false
      → All (λ s. is_root s.source ≡ false) shares.1
      → All (λ m. is_root m.source ≡ false) (mounts_for host run dir shares)
  unfolding tmpfs is_root
  mounts_for-All dir (disk, shares) safe h = (
    refl,
    (
      refl,
      (
        refl,
        All-append _ _ _ (dir-All dir safe) (
            All-append _ _ _ (shares-All shares h) (
              files-All (host_net_files host disk run)
                (unfold host_net_files in net_files-All disk run.network))),
      ),
    ),
  )
    where
      dir-All :
          (d : Option Text)
          → is_root_dir d ≡ false
          → All (λ m. is_root m.source ≡ false) (with_dir (λ d. bind d d false) d)
      dir-All none safe = tt
      dir-All (some d) safe = (unfold bind in safe, tt)

  -- Where the working directory has passed its check, no mount that is added hands over the whole of
  -- the host's file system.
  pub added_mounts-All :
      (disk : D) (mounts : D × List Mount)
      → check_host_dir host run ≡ ok tt
      → added_mounts host disk run ≡ ok mounts
      → All (λ m. is_root m.source ≡ false) mounts.1
  unfolding added_mounts
  added_mounts-All disk mounts checked h =
      let (dir, shares, e, e1, made) =
        two_steps-eq-ok (host_dir host run) (extra_mounts host disk run)
          (λ dir shares. (shares.0, mounts_for host run dir shares)) h in
      let (read, passed, safe) =
        extra_mounts_of-shares_of host disk run.mount shares (unfold extra_mounts in e1) in
      rw made (mounts_for-All dir shares (dir-safe dir e checked) safe)

  -- If the mounts of a run can be made, the definition's entries pass `check`.
  pub check_mounts-extra_mounts :
      (disk : D) (shares : D × List Share)
      → extra_mounts host disk run ≡ ok shares
      → check_mounts host run.mount ≡ ok tt
  unfolding extra_mounts
  check_mounts-extra_mounts disk shares h =
      (extra_mounts_of-shares_of host disk run.mount shares h).1
