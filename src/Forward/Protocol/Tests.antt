-- ===== src/Forward/Protocol/Tests.antt =====
-- Requests and connections over kernels that answer with fixed descriptors.
use climate.Common.{Option, none, some, [], true, false, ℕ, ◌≡◌, arith, ◌==◌, if◌then◌else◌}
use climate.Forward.Mirrors.{Mirror}
use climate.Forward.Protocol.{
  Kernel, SocketAddr, v4, v6, connect_to, op_listen, helper_round, request, serve_request, serve,
}
use climate.Forward.Protocol.Exchange.{request-helper_round, serve_lem}

-- IPv4 alone works, and only the port 3000 has a server.
abbrev answer : SocketAddr → Option ℕ
answer (v4 port) = if port == 3000 then some 9 else none
answer (v6 port) = none

abbrev kernel : Kernel
kernel = record { listen_on_addr = answer; connect_to_addr = answer }

abbrev nothing : Kernel
nothing = record { listen_on_addr = λ a. none; connect_to_addr = λ a. none }

abbrev inward : Mirror
inward = record { listener = 5; port = 3000; inbound = true }

request-helper_round_example :
    (request (helper_round kernel) true op_listen 3000 ≡ serve_request kernel op_listen 3000)
    × (request (helper_round kernel) false op_listen 3000 ≡ [])
    × (request (λ bytes. none) true op_listen 3000 ≡ [])
request-helper_round_example = request-helper_round kernel op_listen 3000 (omega arith)

serve_lem_example :
    (serve (request (helper_round kernel) true) nothing inward none ≡ none)
    × (serve (request (helper_round kernel) true) nothing inward (some 4) ≡ some (4, 9))
unfolding connect_to
serve_lem_example = serve_lem kernel nothing inward 4 (omega arith)
