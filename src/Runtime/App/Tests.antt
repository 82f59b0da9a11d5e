-- ===== src/Runtime/App/Tests.antt =====
-- The run of an app whose image is in the store, on a machine where everything goes well.
use climate.Common.{◌≡◌, ok, Text, codes, text_eq, ◌∷◌, none, some, [], true, ℕ, refl}
use climate.Common.Action.{Ends}
use climate.Spec.Tests.{host, cfg, rootless, no_variable}
use climate.Spec.Limits.Tests.{thousandths}
use climate.Clean.Tests.{formats, store}
use climate.Pull.Tests.{offline}
use climate.Runtime.App.{Machine, State, run_definition}
use climate.Runtime.App.Ends.{IsOver, IsFailed, run_definition-Ends}
use climate.Runtime.Overlay.Tests.{system, overlays}
use climate.Runtime.Run.{nothing_left}
use climate.Runtime.Run.Tests.{all_well}
use climate.Seccomp.{on_x86_64}
use climate.Seccomp.Recorded.{Asked}
use climate.Seccomp.Tests.{caps, seacomb}
use climate.Pull.{fetch, ensure, resolve}
use climate.Spec.Limits.{multiplier, resources}
use climate.Spec.Paths.{is_root, join_path, expand_path}
use climate.Spec.Process.{entrypoint_words, command}
use climate.Spec.Mounts.{
  mount_fields, is_readonly, parse_mount, host_dir, check_host_dir, ensure_source, extra_mount,
  extra_mounts_of, extra_mounts, host_net_files, mountpoints, added_mounts,
}
use climate.Spec.Build.{build}
use climate.Seccomp.{
  text_less, insert_name, extend, partial_rules, allow_names, deny_names, grant, verdict, add_archs,
  add_allowed, add_partial, profile, allowed_syscalls, arch_allowed, architectures,
  capability_syscalls,
}
use climate.Runtime.Overlay.{
  target_of, materialise_point, materialise_stub, layer_dir, layer_args, lowerdirs, mount_options,
  mount_new,
}
use climate.Runtime.Wait.{lowerdir_arg}
use climate.Runtime.Run.{set_up, attached, take_down, supervise, run}
use climate.Runtime.App.{run_mounted}
use climate.Store.{
  find_ref, find_blob, is_clean, digest_path, marker_name, read_blob, read_ref, image_key,
  read_manifest, image_config, has_ref,
}

abbrev machine : Machine ℕ ℕ ℕ Text (Asked Text) Text
machine = record {
  host = host;
  float = thousandths;
  var = no_variable;
  rootless = rootless;
  systemd = true;
  formats = formats;
  exec_config = λ settings. some (record {
    entrypoint = some (codes "/bin/tool" ∷ []);
    cmd = none;
    env = none;
    working_dir = none;
  });
  makers = offline;
  system = system;
  dir = codes "/run/x";
  resolv_conf = codes "";
  capabilities = caps;
  target = on_x86_64;
  seacomb = seacomb;
  is_terminal = true;
  answers = λ spec policy. all_well;
}

abbrev before : State ℕ
before = record { disk = 0; store = store; overlays = overlays; left = nothing_left }

run_definition-Ends_example :
    Ends
      (IsOver machine cfg [] before)
      (IsFailed machine cfg [] before)
      (run_definition machine cfg [] before)
unfolding text_eq
run_definition-Ends_example =
    run_definition-Ends machine cfg [] before (λ spec policy. refl) (λ spec policy. refl) refl refl
      refl refl

-- The run exits with what the container exited with.
exited : (run_definition machine cfg [] before).0 ≡ ok 7
unfolding text_eq fetch ensure resolve multiplier resources is_root join_path expand_path
    entrypoint_words command mount_fields is_readonly parse_mount host_dir check_host_dir
    ensure_source extra_mount extra_mounts_of extra_mounts host_net_files mountpoints added_mounts
    build text_less insert_name extend partial_rules allow_names deny_names grant verdict add_archs
    add_allowed add_partial profile allowed_syscalls arch_allowed architectures capability_syscalls
    target_of materialise_point materialise_stub layer_dir layer_args lowerdirs mount_options
    mount_new lowerdir_arg set_up attached take_down supervise run run_mounted run_definition
    find_ref find_blob is_clean digest_path marker_name read_blob read_ref image_key read_manifest
    image_config has_ref
exited = refl
