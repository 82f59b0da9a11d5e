-- ===== src/Forward/Protocol/Exchange.antt =====
-- A request and its answer, from the run to the helper and back.
use climate.Common.{
  length, none, some, [], true, false, ℕ, ◌+◌, ◌*◌, ◌/◌, ◌%◌, ◌^◌, ◌≤◌, ◌<◌, ◌≡◌, if◌then◌else◌,
  refl, arith, ap,
}
use climate.Forward.Mirrors.{Mirror}
use climate.Forward.Protocol.{
  Kernel, listen_on, connect_to, send_fds, recv_fds, serve_request, joined, helper_round,
  encode_request, request, serve,
}

-- At most one socket for each address family.
pub length-listen_on : (k : Kernel) (port : ℕ) → length (listen_on k port) ≤ 2
unfolding listen_on
length-listen_on k port = ground arith

-- What the helper makes for an operation and a 16-bit port reaches the run that asked for it, with
-- the port unchanged, also where it is nothing; if the request could not be written, or the helper
-- is gone, the run gets nothing.
pub request-helper_round :
    (k : Kernel) (op port : ℕ)
    → port < 2 ^ 16
    → (request (helper_round k) true op port ≡ serve_request k op port)
      × (request (helper_round k) false op port ≡ [])
      × (request (λ bytes. none) true op port ≡ [])
unfolding request helper_round encode_request send_fds recv_fds
request-helper_round k op port h = (ap (serve_request k op) (omega arith), refl, refl)

-- A connection to a mirror is joined to the same port of the other side: the container's, made by
-- the helper, if the mirror listens on the host, and the host's if it listens in the container. It
-- is dropped if either half is missing.
pub serve_lem :
    (container host : Kernel) (mirror : Mirror) (near : ℕ)
    → mirror.port < 2 ^ 16
    → (serve (request (helper_round container) true) host mirror none ≡ none)
      × (serve (request (helper_round container) true) host mirror (some near)
          ≡ joined near (connect_to (if mirror.inbound then container else host) mirror.port))
unfolding serve request helper_round encode_request send_fds recv_fds serve_request
serve_lem container host mirror near h =
    let whole : mirror.port % 256 + 256 * (mirror.port / 256) ≡ mirror.port = omega arith in
    (refl, ground (arith, whole))
