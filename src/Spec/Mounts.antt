-- ===== src/Spec/Mounts.antt =====
-- The mounts of src/spec.rs: `parse_mount`, `extra_mounts`, `check`, `host_dir`, `host_net_files`,
-- `mountpoints`, and the mounts that `build` adds; and `MountPoint` of src/runtime.rs. The disk and
-- what the system does to it are parameters.
pub mod Fields
pub mod Step
pub mod Cover
use climate.Common.{
  Text, codes, text_eq, split, ends_with, ◌&&◌, ◌||◌, not, if◌then◌else◌, Option, none, some, List,
  [], ◌∷◌, ◌++◌, map, retain, Bool, true, false, Result, ok, err, ◌>>=◌, ◌>>◌, guard, context,
}
use climate.Common.Error.{
  Error, too_many_fields, bad_access, missing_read_only, not_created, no_current_dir, mounts_root,
}
use climate.Config.{Network, full, no_network, localhost, localnet, RunConfig}
use climate.Spec.Paths.{is_root, expand_path}

-- `D` is a state of the disk.
pub record Host (D : Type 0) : Type 0 where
  pub home : Option Text
  pub current_dir : Option Text
  pub exists : D → Text → Bool
  pub is_file : D → Text → Bool
  pub parent : Text → Option Text
  pub create_dir_all : D → Text → Option D
  pub create_file : D → Text → Option D

-- The access field is still a text.
pub record MountFields : Type 0 where
  pub source : Text
  pub destination : Text
  pub access : Option Text

abbrev pub is_access : Text → Bool
is_access field = text_eq field (codes "ro") || text_eq field (codes "rw")

unfoldable pub mount_fields : Text → List Text → Result Error MountFields
mount_fields entry (source ∷ []) =
    ok (record { source = source; destination = source; access = none })
mount_fields entry (source ∷ second ∷ []) = ok (
    if is_access second
    then record { source = source; destination = source; access = some second }
    else record { source = source; destination = second; access = none })
mount_fields entry (source ∷ destination ∷ access ∷ []) =
    ok (record { source = source; destination = destination; access = some access })
mount_fields entry _ = err (too_many_fields entry)

unfoldable pub is_readonly : Text → Option Text → Result Error Bool
is_readonly entry none = ok false
is_readonly entry (some access) =
    if text_eq access (codes "ro")
    then ok true
    else if text_eq access (codes "rw")
    then ok false
    else err (bad_access entry access)

-- Host path, path inside the container, read-only.
pub record Share : Type 0 where
  pub source : Text
  pub destination : Text
  pub readonly : Bool

unfoldable pub parse_mount : Text → Result Error Share
parse_mount entry = do
  fields ← mount_fields entry (split b':' entry)
  readonly ← is_readonly entry fields.access
  ok (record { source = fields.source; destination = fields.destination; readonly = readonly })

pub record MountPoint : Type 0 where
  pub path : Text
  pub is_file : Bool
  pub contents : Text

abbrev pub dir_point : Text → MountPoint
dir_point path = record { path = path; is_file = false; contents = [] }

abbrev pub file_point : Text → MountPoint
file_point path = record { path = path; is_file = true; contents = [] }

abbrev pub generated_point : Text → Text → MountPoint
generated_point path contents = record { path = path; is_file = true; contents = contents }

-- What the program sets of `Mount`.
pub record Mount : Type 0 where
  pub destination : Text
  pub typ : Text
  pub source : Text
  pub options : List Text

unfoldable pub tmpfs : Text × Text → Mount
tmpfs (destination, mode) = record {
  destination = destination;
  typ = codes "tmpfs";
  source = codes "tmpfs";
  options = codes "nosuid" ∷ codes "nodev" ∷ (codes "mode=" ++ mode) ∷ [];
}

unfoldable pub bind : Text → Text → Bool → Mount
bind source destination readonly = record {
  destination = destination;
  typ = codes "bind";
  source = source;
  options = codes "rbind" ∷ (if readonly then codes "ro" else codes "rw") ∷ [];
}

abbrev pub tmpfs_dirs : List (Text × Text)
tmpfs_dirs =
    (codes "/tmp", codes "1777")
    ∷ (codes "/run", codes "0755")
    ∷ (codes "/var/tmp", codes "1777")
    ∷ []

abbrev pub default_mount_dirs : List Text
default_mount_dirs = codes "/proc" ∷ codes "/dev" ∷ codes "/sys" ∷ []

abbrev pub host_net_paths : List Text
host_net_paths = codes "/etc/resolv.conf" ∷ codes "/etc/hosts" ∷ []

-- A share of the working directory, if there is one.
abbrev pub with_dir : {A : Type 0} → (Text → A) → Option Text → List A
with_dir f none = []
with_dir f (some dir) = f dir ∷ []

abbrev pub is_root_dir : Option Text → Bool
is_root_dir none = false
is_root_dir (some dir) = is_root dir

abbrev pub generated_points : Text → Network → List MountPoint
generated_points resolv_conf localnet = generated_point (codes "/etc/resolv.conf") resolv_conf ∷ []
generated_points resolv_conf full = []
generated_points resolv_conf no_network = []
generated_points resolv_conf localhost = []

abbrev pub bind_share : Share → Mount
bind_share share = bind share.source share.destination share.readonly

module _ {D : Type 0} (host : Host D) where
  unfoldable pub host_dir : {K : Type 0} → RunConfig K → Result Error (Option Text)
  host_dir run =
      if run.mount_cwd
      then (do dir ← context host.current_dir no_current_dir; ok (some dir))
      else ok none

  -- The warning about the home directory goes to the terminal only.
  unfoldable pub check_host_dir : {K : Type 0} → RunConfig K → Result Error (Unit {0})
  check_host_dir run = do dir ← host_dir run; guard (not (is_root_dir dir)) mounts_root

  abbrev make_parent : D → Text → Option Text → Result Error D
  make_parent disk path none = ok disk
  make_parent disk path (some parent) =
      context (host.create_dir_all disk parent) (not_created parent)

  unfoldable pub create_source : D → Text → Bool → Result Error D
  create_source disk path as_dir =
      if as_dir then context (host.create_dir_all disk path) (not_created path) else do
        disk' ← make_parent disk path (host.parent path)
        context (host.create_file disk' path) (not_created path)

  -- A source that is not there is made, if it may be written.
  unfoldable pub ensure_source : D → Share → Text → Result Error D
  ensure_source disk share source =
      if host.exists disk source
      then ok disk
      else if share.readonly
      then err (missing_read_only source)
      else create_source disk source (ends_with share.source b'/')

  abbrev pub expand : Text → Result Error Text
  expand path = expand_path host.home path

  -- The round for one entry: the disk after it, and the share with its paths expanded.
  unfoldable pub extra_mount : D → Text → Result Error (D × Share)
  extra_mount disk entry = do
    share ← parse_mount entry
    source ← expand share.source
    guard (not (is_root source)) mounts_root
    disk' ← ensure_source disk share source
    destination ← expand share.destination
    ok (disk', record { source = source; destination = destination; readonly = share.readonly })

  unfoldable pub extra_mounts_of : D → List Text → Result Error (D × List Share)
  extra_mounts_of disk [] = ok (disk, [])
  extra_mounts_of disk (entry ∷ rest) = do
    first ← extra_mount disk entry
    others ← extra_mounts_of first.0 rest
    ok (others.0, first.1 ∷ others.1)

  unfoldable pub extra_mounts : {K : Type 0} → D → RunConfig K → Result Error (D × List Share)
  extra_mounts disk run = extra_mounts_of disk run.mount

  -- The round of `check` for one entry, and its loop.
  unfoldable pub check_mount : Text → Result Error (Unit {0})
  check_mount entry = do
    share ← parse_mount entry
    source ← expand share.source
    guard (not (is_root source)) mounts_root
    destination ← expand share.destination
    ok tt

  unfoldable pub check_mounts : List Text → Result Error (Unit {0})
  check_mounts [] = ok tt
  check_mounts (entry ∷ rest) = check_mount entry >> check_mounts rest

  abbrev pub net_files : D → Network → List Text
  net_files disk full = retain (host.exists disk) host_net_paths
  net_files disk no_network = []
  net_files disk localhost = []
  net_files disk localnet = []

  unfoldable pub host_net_files : {K : Type 0} → D → RunConfig K → List Text
  host_net_files disk run = net_files disk run.network

  abbrev pub share_point : D → Share → MountPoint
  share_point disk share =
      if host.is_file disk share.source
      then file_point share.destination
      else dir_point share.destination

  -- The points for the directories and files that are shared.
  abbrev pub points_for :
      {K : Type 0} → Text → RunConfig K → Option Text → D × List Share → List MountPoint
  points_for resolv_conf run dir (disk, shares) =
      map dir_point (default_mount_dirs ++ map (λ d. d.0) tmpfs_dirs)
      ++ (with_dir dir_point dir
          ++ (map (share_point disk) shares
              ++ (map file_point (host_net_files disk run)
                  ++ generated_points resolv_conf run.network)))

  -- `resolv_conf` is what the function of that name of localnet.rs gives.
  unfoldable pub mountpoints :
      {K : Type 0} → D → Text → RunConfig K → Result Error (D × List MountPoint)
  mountpoints disk resolv_conf run = do
    dir ← host_dir run
    shares ← extra_mounts disk run
    ok (shares.0, points_for resolv_conf run dir shares)

  abbrev pub mounts_for : {K : Type 0} → RunConfig K → Option Text → D × List Share → List Mount
  mounts_for run dir (disk, shares) =
      map tmpfs tmpfs_dirs
      ++ (with_dir (λ d. bind d d false) dir
          ++ (map bind_share shares ++ map (λ file. bind file file true) (host_net_files disk run)))

  -- The mounts that `build` adds to the specification's own.
  unfoldable pub added_mounts : {K : Type 0} → D → RunConfig K → Result Error (D × List Mount)
  added_mounts disk run = do
    dir ← host_dir run
    shares ← extra_mounts disk run
    ok (shares.0, mounts_for run dir shares)
