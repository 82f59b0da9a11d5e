-- ===== src/Localnet/Relay.antt =====
-- `connect_tcp`, `relay_tcp` and `relay_udp` of src/localnet.rs: one connection or flow of the container,
-- as the calls that the relay makes for it outside. What the system answers is the parameter `Sockets`.
pub mod Bound
pub mod Held
pub mod Tests
use climate.Common.{
  Text, context, guard, if◌then◌else◌, is_empty, Option, none, some, List, [], ◌∷◌, Bool, true,
  false, Result, ok, err,
}
use climate.Common.Error.{Error, not_permitted, socket_failed}
use climate.Common.Action.{Action, pure, attempt, lift, modify, ◌>>=◌, ◌>>◌}
use climate.Localnet.Route.{IpAddr, v4, v6, Route}
use climate.Localnet.Egress.{egress}

-- The calls on the socket outside and on the stream inside.
pub data SocketCall : Type 0 where
  open_v4 open_v6 bind_any shutdown_inside : SocketCall
  bind_device : Text → SocketCall
  connect : IpAddr → SocketCall
  send write_inside : Text → SocketCall

-- The latest call first.
abbrev pub Log : Type 0
Log = List SocketCall

pub record Sockets : Type 0 where
  pub opens : Bool
  pub binds_any : Bool
  pub binds_device : Text → Bool
  pub connects : IpAddr → Bool
  pub shuts_down : Bool

-- What the two ends meet, in order: bytes from the container or for it, each sent or not, and an end.
pub data Passing : Type 0 where
  up down : Text → Bool → Passing
  read_failed : Passing

abbrev pub open_for : IpAddr → SocketCall
open_for (v4 ip) = open_v4
open_for (v6 ip) = open_v6

module _ (routes : List Route) (sockets : Sockets) where
  -- A call that counts once it has worked, and one that counts at once.
  abbrev pub made : Bool → SocketCall → Action Log (Unit {0})
  made works call = do lift (guard works socket_failed); modify (λ log. call ∷ log)

  abbrev pub tried : Bool → SocketCall → Action Log (Unit {0})
  tried works call = do modify (λ log. call ∷ log); lift (guard works socket_failed)

  unfoldable pub connect_tcp : IpAddr → Action Log (Unit {0})
  connect_tcp target = do
    device ← lift (context (egress routes target) not_permitted)
    made sockets.opens (open_for target)
    made (sockets.binds_device device) (bind_device device)
    tried (sockets.connects target) (connect target)

  -- `copy_bidirectional`, which ends with the connection or with an error.
  unfoldable pub pass : List Passing → Action Log (Unit {0})
  pass [] = pure tt
  pass (up bytes works ∷ passing) = do tried works (send bytes); pass passing
  pass (down bytes works ∷ passing) = do tried works (write_inside bytes); pass passing
  pass (read_failed ∷ passing) = lift (err socket_failed)

  abbrev pub joined : List Passing → Result Error (Unit {0}) → Action Log (Unit {0})
  joined passing (ok done) = pass passing
  joined passing (err e) = tried sockets.shuts_down shutdown_inside

  unfoldable pub relay_tcp : IpAddr → List Passing → Action Log (Unit {0})
  relay_tcp target passing = do outside ← attempt (connect_tcp target); joined passing outside

  -- An empty read from the container ends the flow.
  unfoldable pub relay_packets : List Passing → Action Log (Unit {0})
  relay_packets [] = pure tt
  relay_packets (up bytes works ∷ passing) =
      if is_empty bytes then pure tt else (tried works (send bytes) >> relay_packets passing)
  relay_packets (down bytes works ∷ passing) = do
    tried works (write_inside bytes)
    relay_packets passing
  relay_packets (read_failed ∷ passing) = lift (err socket_failed)

  abbrev pub relay_from : IpAddr → List Passing → Option Text → Action Log (Unit {0})
  relay_from target passing none = pure tt
  relay_from target passing (some device) = do
    made sockets.opens (open_for target)
    made sockets.binds_any bind_any
    made (sockets.binds_device device) (bind_device device)
    tried (sockets.connects target) (connect target)
    relay_packets passing

  unfoldable pub relay_udp : IpAddr → List Passing → Action Log (Unit {0})
  relay_udp target passing = relay_from target passing (egress routes target)
