-- ===== src/Forward/Protocol.antt =====
-- The sockets of src/forward.rs and the talk between the run and its helper: `loopback_addrs`,
-- `listen_on`, `connect_to`, `send_fds`, `recv_fds`, `request`, the loop of `helper`, and `serve`.
-- What the kernel answers to `listen_on_addr` and `connect_to_addr` is a parameter: a descriptor,
-- or nothing where the call failed.
pub mod Exchange
pub mod Tests
use climate.Common.{
  ◌==◌, if◌then◌else◌, Option, none, some, List, [], ◌∷◌, Bool, true, false, ℕ, ◌+◌, ◌*◌, ◌/◌, ◌%◌,
  is_empty, length,
}
use climate.Forward.Mirrors.{Mirror}

pub data SocketAddr : Type 0 where
  v4 v6 : ℕ → SocketAddr

pub record Kernel : Type 0 where
  pub listen_on_addr : SocketAddr → Option ℕ
  pub connect_to_addr : SocketAddr → Option ℕ

unfoldable pub loopback_addrs : ℕ → List SocketAddr
loopback_addrs port = v4 port ∷ v6 port ∷ []

-- `filter_map(…).collect()`
abbrev keep : Option ℕ → List ℕ → List ℕ
keep none fds = fds
keep (some fd) fds = fd ∷ fds

abbrev filter_map : (SocketAddr → Option ℕ) → List SocketAddr → List ℕ
filter_map f [] = []
filter_map f (a ∷ rest) = keep (f a) (filter_map f rest)

abbrev first : Option ℕ → Option ℕ → Option ℕ
first none other = other
first (some fd) other = some fd

abbrev find_map : (SocketAddr → Option ℕ) → List SocketAddr → Option ℕ
find_map f [] = none
find_map f (a ∷ rest) = first (f a) (find_map f rest)

unfoldable pub listen_on : Kernel → ℕ → List ℕ
unfolding loopback_addrs
listen_on k port = filter_map k.listen_on_addr (loopback_addrs port)

unfoldable pub connect_to : Kernel → ℕ → Option ℕ
unfolding loopback_addrs
connect_to k port = find_map k.connect_to_addr (loopback_addrs port)

-- A message on the socket pair: its bytes and the descriptors that ride along. The socket is
-- closed where there is no byte.
pub record Message : Type 0 where
  pub bytes : List ℕ
  pub rights : List ℕ

unfoldable pub send_fds : List ℕ → Message
send_fds fds = record { bytes = length fds % 256 ∷ []; rights = fds }

unfoldable pub recv_fds : Message → Option (List ℕ)
recv_fds reply = if is_empty reply.bytes then none else some reply.rights

abbrev pub op_listen : ℕ
op_listen = b'L'

abbrev pub op_connect : ℕ
op_connect = b'C'

abbrev as_list : Option ℕ → List ℕ
as_list none = []
as_list (some fd) = fd ∷ []

-- What is made for an operation byte and a port.
unfoldable pub serve_request : Kernel → ℕ → ℕ → List ℕ
serve_request k op port =
    if op == op_listen
    then listen_on k port
    else if op == op_connect
    then as_list (connect_to k port)
    else []

-- One round of the helper on the bytes that it read, at most three: `none` is its return, when the
-- run closed the socket. A byte that was not read is zero.
unfoldable pub helper_round : Kernel → List ℕ → Option Message
helper_round k [] = none
helper_round k (op ∷ []) = some (send_fds (serve_request k op 0))
helper_round k (op ∷ low ∷ []) = some (send_fds (serve_request k op low))
helper_round k (op ∷ low ∷ high ∷ rest) = some (send_fds (serve_request k op (low + 256 * high)))

-- `[op, port[0], port[1]]` of the port's little-endian bytes.
unfoldable pub encode_request : ℕ → ℕ → List ℕ
encode_request op port = op ∷ port % 256 ∷ port / 256 ∷ []

abbrev or_empty : Option (List ℕ) → List ℕ
or_empty none = []
or_empty (some fds) = fds

-- A helper that is gone leaves a closed socket.
abbrev reply_of : Option Message → Message
reply_of none = record { bytes = []; rights = [] }
reply_of (some m) = m

-- `request` over a socket pair: `written` says whether the write went through.
unfoldable pub request : (List ℕ → Option Message) → Bool → ℕ → ℕ → List ℕ
request helper written op port =
    if written then or_empty (recv_fds (reply_of (helper (encode_request op port)))) else []

abbrev pop : List ℕ → Option ℕ
pop [] = none
pop (fd ∷ []) = some fd
pop (fd ∷ fd' ∷ fds) = pop (fd' ∷ fds)

abbrev pub joined : ℕ → Option ℕ → Option (ℕ × ℕ)
joined near none = none
joined near (some far) = some (near, far)

-- The two sockets that `serve` joins, if it joins any: `accepted` is the answer of `accept`.
unfoldable pub serve : (ℕ → ℕ → List ℕ) → Kernel → Mirror → Option ℕ → Option (ℕ × ℕ)
serve ask host mirror none = none
serve ask host mirror (some near) =
    joined near
      (if mirror.inbound then pop (ask op_connect mirror.port) else connect_to host mirror.port)
