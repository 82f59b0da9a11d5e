-- ===== src/Seccomp/Tables.antt =====
-- The tables of src/seccomp.rs: what every app may call, what an architecture adds, and what a
-- capability adds. A table of names is written as its names with spaces between them.
use climate.Common.{Text, codes, split, List, [], ◌∷◌, ◌++◌, ℕ}
use Prim.Native.String.{String}

-- The architecture that the program is built for.
pub data Target : Type 0 where
  on_x86_64 on_aarch64 on_other : Target

pub data Arch : Type 0 where
  x86_64 x86 aarch64 arm : Arch

abbrev words : String → List Text
words s = split b' ' (codes s)

abbrev all_words : List String → List Text
all_words [] = []
all_words (s ∷ ss) = words s ++ all_words ss

unfoldable pub allowed_syscalls : List Text
allowed_syscalls = all_words (
    "_llseek _newselect accept accept4 access adjtimex alarm bind brk capget capset chdir"
    ∷ "chmod chown chown32 clock_adjtime clock_adjtime64 clock_getres clock_getres_time64"
    ∷ "clock_gettime clock_gettime64 clock_nanosleep clock_nanosleep_time64 close"
    ∷ "close_range connect copy_file_range creat dup dup2 dup3 epoll_create epoll_create1"
    ∷ "epoll_ctl epoll_ctl_old epoll_pwait epoll_pwait2 epoll_wait epoll_wait_old eventfd"
    ∷ "eventfd2 execve execveat exit exit_group faccessat faccessat2 fadvise64 fadvise64_64"
    ∷ "fallocate fanotify_init fanotify_mark fchdir fchmod fchmodat fchmodat2 fchown"
    ∷ "fchown32 fchownat fcntl fcntl64 fdatasync fgetxattr flistxattr flock fork"
    ∷ "fremovexattr fsconfig fsetxattr fsmount fsopen fspick fstat fstat64 fstatat64"
    ∷ "fstatfs fstatfs64 fsync ftruncate ftruncate64 futex futex_time64 futimesat"
    ∷ "get_mempolicy get_robust_list get_thread_area getcpu getcwd getdents getdents64"
    ∷ "getegid getegid32 geteuid geteuid32 getgid getgid32 getgroups getgroups32 getitimer"
    ∷ "getpeername getpgid getpgrp getpid getppid getpriority getrandom getresgid"
    ∷ "getresgid32 getresuid getresuid32 getrlimit getrusage getsid getsockname getsockopt"
    ∷ "gettid gettimeofday getuid getuid32 getxattr inotify_add_watch inotify_init"
    ∷ "inotify_init1 inotify_rm_watch io_cancel io_destroy io_getevents io_setup io_submit"
    ∷ "ioctl ioprio_get ioprio_set ipc keyctl kill landlock_add_rule"
    ∷ "landlock_create_ruleset landlock_restrict_self lchown lchown32 lgetxattr link linkat"
    ∷ "listen listxattr llistxattr lremovexattr lseek lsetxattr lstat lstat64 madvise mbind"
    ∷ "membarrier memfd_create memfd_secret mincore mkdir mkdirat mknod mknodat mlock"
    ∷ "mlock2 mlockall mmap mmap2 mount mount_setattr move_mount mprotect mq_getsetattr"
    ∷ "mq_notify mq_open mq_timedreceive mq_timedreceive_time64 mq_timedsend"
    ∷ "mq_timedsend_time64 mq_unlink mremap msgctl msgget msgrcv msgsnd msync munlock"
    ∷ "munlockall munmap name_to_handle_at nanosleep newfstatat open open_tree openat"
    ∷ "openat2 pause pidfd_getfd pidfd_open pidfd_send_signal pipe pipe2 pivot_root"
    ∷ "pkey_alloc pkey_free pkey_mprotect poll ppoll ppoll_time64 prctl pread64 preadv"
    ∷ "preadv2 prlimit64 process_mrelease process_vm_readv process_vm_writev pselect6"
    ∷ "pselect6_time64 ptrace pwrite64 pwritev pwritev2 read readahead readlink readlinkat"
    ∷ "readv reboot recv recvfrom recvmmsg recvmmsg_time64 recvmsg remap_file_pages"
    ∷ "removexattr rename renameat renameat2 restart_syscall rmdir rseq rt_sigaction"
    ∷ "rt_sigpending rt_sigprocmask rt_sigqueueinfo rt_sigreturn rt_sigsuspend"
    ∷ "rt_sigtimedwait rt_sigtimedwait_time64 rt_tgsigqueueinfo sched_get_priority_max"
    ∷ "sched_get_priority_min sched_getaffinity sched_getattr sched_getparam"
    ∷ "sched_getscheduler sched_rr_get_interval sched_rr_get_interval_time64"
    ∷ "sched_setaffinity sched_setattr sched_setparam sched_setscheduler sched_yield"
    ∷ "seccomp select semctl semget semop semtimedop semtimedop_time64 send sendfile"
    ∷ "sendfile64 sendmmsg sendmsg sendto set_mempolicy set_robust_list set_thread_area"
    ∷ "set_tid_address setfsgid setfsgid32 setfsuid setfsuid32 setgid setgid32 setgroups"
    ∷ "setgroups32 setitimer setpgid setpriority setregid setregid32 setresgid setresgid32"
    ∷ "setresuid setresuid32 setreuid setreuid32 setrlimit setsid setsockopt setuid"
    ∷ "setuid32 setxattr shmat shmctl shmdt shmget shutdown sigaltstack signal signalfd"
    ∷ "signalfd4 sigprocmask sigreturn socketcall socketpair splice stat stat64 statfs"
    ∷ "statfs64 statx symlink symlinkat sync sync_file_range syncfs sysinfo syslog tee"
    ∷ "tgkill time timer_create timer_delete timer_getoverrun timer_gettime timer_gettime64"
    ∷ "timer_settime timer_settime64 timerfd_create timerfd_gettime timerfd_gettime64"
    ∷ "timerfd_settime timerfd_settime64 times tkill truncate truncate64 ugetrlimit umask"
    ∷ "umount umount2 uname unlink unlinkat utime utimensat utimensat_time64 utimes vfork"
    ∷ "wait4 waitid waitpid write writev" ∷ [])

unfoldable pub arch_allowed : Target → List Text
arch_allowed on_x86_64 = words "arch_prctl modify_ldt"
arch_allowed on_aarch64 =
    words "arm_fadvise64_64 arm_sync_file_range breakpoint cacheflush set_tls sync_file_range2"
arch_allowed on_other = []

unfoldable pub architectures : Target → List Arch
architectures on_x86_64 = x86_64 ∷ x86 ∷ []
architectures on_aarch64 = aarch64 ∷ arm ∷ []
architectures on_other = []

-- The capabilities that the table names.
pub data Named : Type 0 where
  bpf dac_read_search perfmon sys_admin sys_chroot sys_module sys_pacct sys_ptrace : Named
  sys_rawio sys_time sys_tty_config : Named

unfoldable pub capability_syscalls : List (Named × List Text)
capability_syscalls =
    (bpf, words "bpf")
    ∷ (dac_read_search, words "open_by_handle_at")
    ∷ (perfmon, words "perf_event_open")
    ∷ (sys_admin, words "bpf lookup_dcookie quotactl quotactl_fd setdomainname sethostname setns")
    ∷ (sys_chroot, words "chroot")
    ∷ (sys_module, words "delete_module finit_module init_module query_module")
    ∷ (sys_pacct, words "acct")
    ∷ (sys_ptrace, words "kcmp process_madvise")
    ∷ (sys_rawio, words "ioperm iopl")
    ∷ (sys_time, words "clock_settime clock_settime64 settimeofday stime")
    ∷ (sys_tty_config, words "vhangup")
    ∷ []

abbrev pub clone_newuser : ℕ
clone_newuser = 268435456

abbrev pub af_vsock : ℕ
af_vsock = 40

abbrev pub enosys : ℕ
enosys = 38

-- `Errno::PERM`.
abbrev pub eperm : ℕ
eperm = 1

abbrev pub personalities : List ℕ
personalities = 0 ∷ 8 ∷ 131072 ∷ 131080 ∷ 4294967295 ∷ []
