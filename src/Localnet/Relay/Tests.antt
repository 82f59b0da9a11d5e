-- ===== src/Localnet/Relay/Tests.antt =====
-- A printer on the network that the host is directly on.
use climate.Common.{codes, [], ◌∷◌, true}
use climate.Common.Action.{Ends}
use climate.Localnet.Relay.{Sockets, up, down, relay_tcp, relay_udp}
use climate.Localnet.Relay.Held.{relay-IsHeld}
use climate.Localnet.Relay.Bound.{IsHeld}
use climate.Localnet.Tests.{table, printer}

abbrev sockets : Sockets
sockets = record {
  opens = true;
  binds_any = true;
  binds_device = λ device. true;
  connects = λ ip. true;
  shuts_down = true;
}

relay-IsHeld_example :
    Ends
      (λ done log. IsHeld table printer log)
      (IsHeld table printer)
      (relay_tcp table sockets printer (up (codes "hi") true ∷ down (codes "ok") true ∷ []) [])
    × Ends
        (λ done log. IsHeld table printer log)
        (IsHeld table printer)
        (relay_udp table sockets printer (up (codes "hi") true ∷ down (codes "ok") true ∷ []) [])
relay-IsHeld_example =
    relay-IsHeld table sockets printer (up (codes "hi") true ∷ down (codes "ok") true ∷ [])
