-- ===== src/Common/Error.antt =====
-- The errors of the program, one constructor for each message. What the operating system or a
-- third-party package answers inside an error is not kept.
use climate.Common.{Text, List, ℕ}
use climate.Common.Number.{ℤ}

pub data Error : Type 0 where
  -- spec.rs, parse_memory and parse_size: the key and the value
  not_whole_number negative_size unknown_unit too_large zero_size : Text → Text → Error
  -- spec.rs, resources
  swap_sum_too_large : Error
  swap_without_memory : Text → Error
  high_not_below_memory : Text → Error
  cpu_not_positive : Error
  shares_out_of_range : ℤ → Error
  pids_not_positive : ℤ → Error
  -- store.rs
  malformed_digest missing_blob bad_manifest invalid_reference bad_image_config : Text → Error
  not_in_store : Text → Text → Error
  -- spec.rs, the mounts and the process
  too_many_fields not_absolute missing_read_only not_created no_command : Text → Error
  bad_access : Text → Text → Error
  no_home no_current_dir mounts_root : Error
  -- config.rs
  invalid_app_name unknown_app unreadable not_parsed empty_description empty_license : Text → Error
  unknown_syscall : Text → Error
  name_mismatch : Text → Text → Error
  -- runtime.rs
  wait_failed status_lost : Error
  has_colon : Text → Error
  -- seccomp.rs
  policy_refused : Error
  rule_refused : Text → Error
  -- store.rs and pull.rs, the download of an image
  unresolved_image manifest_not_fetched blob_not_pulled layer_not_opened : Text → Error
  bad_media_type not_extracted not_finalised not_stored : Text → Error
  no_decoder : Error
  -- runtime.rs, the root filesystem
  no_layers fuse_missing fuse_failed : Error
  not_made layer_missing : Text → Error
  -- build.rs
  base_missing : Text → Text → Error
  script_failed : Text → ℕ → Error
  -- pull.rs, pull
  rebuild_without_update no_app_named : Error
  nothing_to_pull : Text → Error
  failed_to_update : List Text → Error
  -- forward.rs
  hook_failed namespaces_missing helper_not_started not_joined : Error
  -- runtime.rs, run
  no_cgroup2 not_set_up not_bound no_hook not_created_container no_terminal no_pid : Error
  not_forwarded not_started : Error
  -- store.rs, remove_tree
  not_directory not_emptied : Error
  -- clean.rs
  not_listed not_removed : Text → Error
  fuse_not_run : Error
  -- main.rs
  no_apps_named no_socket_path usage : Error
  already_exists not_linked : Text → Error
  check_failed : ℕ → ℕ → Error
  -- localnet.rs
  not_permitted socket_failed : Error
  -- config.rs, sync
  bad_scheme not_fetched no_branches no_tip : Text → Error
  no_default_branch no_data_dir no_remote_url not_opened bad_commit not_compared : Error
  not_initialised not_checked_out target_occupied : Error
  ref_not_recorded blob_not_stored : Text → Error
