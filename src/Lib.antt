-- ===== src/Lib.antt =====
-- CLImate runs command line tools from container images, each by a definition in TOML.
--
-- The program's parts. src/main.rs reads the command line. src/config.rs finds, reads and checks
-- the definition of an app. src/pull.rs downloads its image, src/build.rs builds one with an
-- install script, and src/store.rs keeps images on disk. src/spec.rs turns a definition and an
-- image into the specification of a container, which src/runtime.rs runs under the seccomp profile
-- of src/seccomp.rs. While a container runs with the network `localhost`, src/forward.rs mirrors
-- the loopback ports of the host and the container into each other, with a helper process inside;
-- with `localnet`, src/localnet.rs also lets it reach the networks that the host is directly on.
-- src/clean.rs removes what no app needs, and src/show.rs prints a definition.
--
-- Which file models which part:
-- - Common and Common/: texts as lists of bytes, results with the program's errors (Common/Error),
--   the integers that the program reads and prints (Common/Number, Common/Hex), and the string
--   functions of the standard library that it calls (Common/Strings), with their lemmas.
--   Common/Action: work on a state that may fail and keeps what it wrote, and what such work
--   promises of either end. Store/Action takes the store for that state.
-- - Spec/Limits: `parse_memory`, `parse_size` and `resources` of src/spec.rs, one helper for each
--   section of `resources`. Spec/Process: `command` and `environment`. Spec/Paths and Spec/Mounts:
--   `expand_path`, `parse_mount`, `extra_mounts`, `check_host_dir`, `mountpoints`, and
--   `MountPoint` of src/runtime.rs. Spec/Build: `capabilities`, `build` and `check`. Config: the
--   records of src/config.rs. Config/Merge: `merge`. Config/Load: `search_dirs`,
--   `validate_app_name`, `read`, `read_override`, `AppConfig::check`, `load_with_raw`, and
--   `check_syscall_names` of src/seccomp.rs. Config/Names: `app_names`, with what
--   a directory holds (`read_dir`) as a parameter. Config/Sync: `sync`, `fetch` and
--   `fetch_and_checkout`, as work on the directory of definitions.
-- - Show: `show` and the printer of src/show.rs, a text for each line that is printed.
-- - Seccomp/Tables and Seccomp: the tables of src/seccomp.rs, `partial_rules` and `profile`, with
--   the verdict on each syscall as a function of the definition.
-- - Runtime/Overlay: `materialise_stub`, `Mount::new` and the dropping of a `Mount` in
--   src/runtime.rs. Runtime/Run: `run`, by what it sets up and takes down again. Runtime/App:
--   `AppConfig::run` of src/config.rs, put together of the others.
-- - Runtime/Signals: the handler `forward_signal` of src/runtime.rs and the lines of `run` that it
--   shares its static variables with, as a step relation in which handlers are interrupted too. Runtime/Wait: `wait` and `lowerdir_arg`.
-- - Forward/Loopback: `is_loopback` and `listening_ports`. Forward/Mirrors: `Mirror` and `rescan`,
--   the sets being lists without duplicates. Forward/Protocol: `listen_on`, `connect_to`,
--   `send_fds`, `recv_fds`, `request`, the loop of `helper`, and `serve`. Forward/Loop:
--   `forward_loop`. Forward/Namespaces: `hook`, the receiving end in `Bridge::start`, what
--   `Forwarder::start` does to descriptors before the helper is run, and `enter_namespaces`.
-- - Localnet/Route: `Route`, `same_prefix`, `contains`, `on_link`, `v4_route`, `v6_route`,
--   `routes`. Localnet/Egress: `is_unicast` and `egress`. Localnet/Resolv: `resolv_conf`.
--   Localnet/Relay: `connect_tcp`, `relay_tcp` and `relay_udp`.
-- - Store: the digests, refs, blobs and layers of src/store.rs as a record of lists, what is read
--   of them, and how refs and blobs are written. Store/Trees: `remove_tree`. Fetch: `fetch_image`,
--   `fetch_layer` and `download_blob` of src/pull.rs with `extract_layer`, `commit_blob` and
--   `temp_path` of src/store.rs. Build: `build`, `build_config` and `run_script` of src/build.rs.
--   Pull: `fetch`, `ensure` and `pull` of src/pull.rs and `resolve` of src/store.rs.
-- - Clean: `live_set`, `gc_images`, `drop_orphan_refs` and the image part of `clean`. Clean/Runs:
--   `alive`, `is_mounted` and `prune_runtime`.
-- - Command: the dispatch of src/main.rs on the name and the arguments that the program is started
--   with, and `check`. Command/Link: `create_symlink` and `link`.
--
-- Parameters of the model: the numbers `f64` (`Float64`), the texts of files under /proc, what the
-- kernel answers when a socket is made (`Kernel`), the clock and the answers of `poll` (`Round`),
-- the order in which a hash set is walked (`visit`, of which only is asked that it gives each
-- member as often as the set holds it), the lowest free descriptor of a process (`lowest`), what
-- the hook meets in the container (`Inside`), what the system answers to the relay (`Sockets`),
-- the packages that read image references, manifests and image settings (`Formats`), the registry
-- and the unpacking of archives (`Remote`), the container that an install script runs in and the
-- package that writes manifests (`World`), how the writing of a blob or a ref ends (`Writes`), the download and the build as `pull` sees them
-- (`Makers`), what the system answers during a run (`Answers`) and to a clean-up (`System`), the
-- package that compiles seccomp policies (`Seacomb`), how an address is printed, the disk and the
-- directories of the host with the calls that change it (`Host`), which entries of a directory can
-- be removed and made (`Rights`), the host's variables, the specification that the oci_spec
-- package starts from (`Rootless`), the files that a definition is read from (`Files`), the
-- package that reads TOML (`Toml`) and how it writes a value (`Display`), the package that speaks git
-- (`Git`), the one that parses arguments (`parse_args`), and the names of
-- signals (`from_named_raw`).
--
-- Bounds: the integers are natural numbers with the limits of their types written out, `i64::MAX`
-- at checked sums and products, `% 2 ^ 32` at the one subtraction in `u32` that could wrap, one
-- byte for the number of descriptors in a message. No definition runs out of fuel: the decimal and
-- hexadecimal digits of a number are taken as often as the number itself says, or as it has
-- digits, and every other recursion is on a list, a table or a run. `forward_loop`, which the
-- program leaves only by its own return, is modelled over any finite list of rounds, so what is
-- proved holds at every moment of an endless run.
--
-- Text is ASCII where the program splits and trims it: what the kernel prints is, and sizes,
-- digests and refs that are anything else are not read. The machine is little-endian. A file of
-- the store that is there can be read and removed; the layers are the user's own, so
-- their permissions can be set. Downloads that run at once are taken in the order in which they
-- complete.
--
-- Not modelled: `list`, which only prints; the device and the network stack of the local
-- network, the copying of the terminal and the guessing of its size, the process of the loopback
-- helper and the thread of its loop as they come and go, which are system calls;
-- progress bars and the text of messages; and xtask, which makes manual pages for the build.
pub mod Common
pub mod Command
pub mod Config
pub mod Spec
pub mod Runtime
pub mod Forward
pub mod Localnet
pub mod Store
pub mod Pull
pub mod Clean
pub mod Seccomp
pub mod Fetch
pub mod Build
pub mod Show
