-- ===== src/Forward/Namespaces.antt =====
-- How the helper of src/forward.rs gets into the container's namespaces: `hook`, `Bridge::start`, what
-- `Forwarder::start` does to the helper's descriptors before it is run, and `enter_namespaces`. The
-- lowest free descriptor and the answers of the system are parameters.
pub mod Moved
pub mod Tests
use climate.Common.{
  Text, codes, ◌==◌, if◌then◌else◌, Option, none, some, List, [], ◌∷◌, Bool, true, false, ℕ, Result,
  ok, err, ◌>>=◌, ◌>>◌, guard, context,
}
use climate.Common.Error.{Error, hook_failed, namespaces_missing, helper_not_started, not_joined}
use climate.Forward.Protocol.{Message, send_fds, recv_fds}

pub data Kind : Type 0 where
  user network : Kind

-- What a descriptor leads to: a namespace by its kind and its number, or something else.
pub data File : Type 0 where
  namespace : Kind → ℕ → File
  other : ℕ → File

pub record Open : Type 0 where
  pub file : File
  pub cloexec : Bool

-- The descriptors of a process.
abbrev pub Table : Type 0
Table = ℕ → Option Open

unfoldable pub put : Table → ℕ → Open → Table
put t n f m = if m == n then some f else t m

-- What the hook meets inside the container: whether the interface comes up, whether the run's socket
-- can be connected to, and the descriptors that the two namespaces are opened on.
pub record Inside : Type 0 where
  pub brings_up : Bool
  pub connects : Bool
  pub open_namespace : Text → Option ℕ

unfoldable pub hook : Inside → Result Error Message
hook inside = do
  guard inside.brings_up hook_failed
  guard inside.connects hook_failed
  user_ns ← context (inside.open_namespace (codes "user")) hook_failed
  net_ns ← context (inside.open_namespace (codes "net")) hook_failed
  ok (send_fds (user_ns ∷ net_ns ∷ []))

-- `<[OwnedFd; 2]>::try_from`
abbrev both : List ℕ → Result Error (ℕ × ℕ)
both [] = err namespaces_missing
both (a ∷ []) = err namespaces_missing
both (a ∷ b ∷ []) = ok (a, b)
both (a ∷ b ∷ c ∷ fds) = err namespaces_missing

unfoldable pub receive_namespaces : Message → Result Error (ℕ × ℕ)
receive_namespaces m = do fds ← context (recv_fds m) namespaces_missing; both fds

abbrev pub helper_fd : ℕ
helper_fd = 3

abbrev pub user_ns_fd : ℕ
user_ns_fd = 4

abbrev pub net_ns_fd : ℕ
net_ns_fd = 5

-- `dup2`, which leaves a descriptor that is its own target alone.
unfoldable pub dup2 : Table → ℕ → ℕ → Result Error Table
dup2 t source target = do
  f ← context (t source) helper_not_started
  ok (if source == target then t else put t target (record { file = f.file; cloexec = false }))

unfoldable pub place_all : Table → List ℕ → List ℕ → Result Error Table
place_all t [] targets = ok t
place_all t (n ∷ ns) [] = ok t
place_all t (n ∷ ns) (target ∷ targets) = do t' ← dup2 t n target; place_all t' ns targets

-- `lowest t n` is a descriptor from `n` on that is not open in `t`, if the process may have one more.
module _ (lowest : Table → ℕ → Option ℕ) where
  -- `fcntl_dupfd_cloexec(source, 10)`
  unfoldable pub dup_above : Table → ℕ → Result Error (Table × ℕ)
  dup_above t source = do
    f ← context (t source) helper_not_started
    n ← context (lowest t 10) helper_not_started
    ok (put t n (record { file = f.file; cloexec = true }), n)

  unfoldable pub dup_all : Table → List ℕ → Result Error (Table × List ℕ)
  dup_all t [] = ok (t, [])
  dup_all t (source ∷ sources) = do
    (t', n) ← dup_above t source
    (t'', ns) ← dup_all t' sources
    ok (t'', n ∷ ns)

  -- What is done between `fork` and `exec`.
  unfoldable pub pre_exec : List ℕ → Table → Result Error Table
  pre_exec sources t = do
    (t', moved) ← dup_all t sources
    place_all t' moved (helper_fd ∷ user_ns_fd ∷ net_ns_fd ∷ [])

abbrev unless_cloexec : Option Open → Option Open
unless_cloexec none = none
unless_cloexec (some f) = if f.cloexec then none else some f

-- What is left for the program that is run.
abbrev pub exec : Table → Table
exec t n = unless_cloexec (t n)

abbrev same_kind : Kind → Kind → Bool
same_kind user user = true
same_kind user network = false
same_kind network user = false
same_kind network network = true

abbrev joins : Kind → Option Open → Result Error (Kind × ℕ)
joins kind none = err not_joined
joins kind (some f) = elim (f.file) [
  | namespace k n ↦ if same_kind k kind then ok (kind, n) else err not_joined
  | other n ↦ err not_joined
]

-- The namespaces that the helper joins, in order. The system takes only a namespace of the kind that
-- is asked for.
unfoldable pub enter_namespaces : Table → Result Error (List (Kind × ℕ))
enter_namespaces t = do
  first ← joins user (t user_ns_fd)
  second ← joins network (t net_ns_fd)
  ok (first ∷ second ∷ [])
