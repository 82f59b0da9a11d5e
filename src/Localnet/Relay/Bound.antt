-- ===== src/Localnet/Relay/Bound.antt =====
-- The calls of the relay, one at a time: the socket is bound before it is used.
use climate.Common.{Text, guard, Option, none, some, List, [], ◌∷◌, Bool, ◌≡◌, refl}
use climate.Common.Error.{socket_failed}
use climate.Common.Action.{
  Action, Promises, lift, modify, lift-Promises, modify-Promises, bind-Promises,
}
use climate.Localnet.Route.{IpAddr, v4, v6, Route}
use climate.Localnet.Egress.{egress}
use climate.Localnet.Relay.{
  SocketCall, open_v4, open_v6, bind_any, shutdown_inside, bind_device, connect, send, write_inside,
  Log, Sockets, open_for, made, tried,
}

-- The interface that the socket is bound to, and the destination that it is connected to.
abbrev pub bound : Log → Option Text
bound [] = none
bound (open_v4 ∷ log) = none
bound (open_v6 ∷ log) = none
bound (bind_any ∷ log) = bound log
bound (shutdown_inside ∷ log) = bound log
bound (bind_device device ∷ log) = some device
bound (connect ip ∷ log) = bound log
bound (send bytes ∷ log) = bound log
bound (write_inside bytes ∷ log) = bound log

-- The socket is bound to the interface on which the destination is directly reached.
abbrev pub IsBound : List Route → IpAddr → Log → Type 0
IsBound routes target log =
    (device : Text) × (egress routes target ≡ some device) × (bound log ≡ some device)

-- It is whenever a connection is begun, to the destination and nowhere else, and whenever bytes are
-- sent.
unfoldable pub IsHeld : List Route → IpAddr → Log → Type 0
IsHeld routes target [] = Unit {0}
IsHeld routes target (open_v4 ∷ log) = IsHeld routes target log
IsHeld routes target (open_v6 ∷ log) = IsHeld routes target log
IsHeld routes target (bind_any ∷ log) = IsHeld routes target log
IsHeld routes target (shutdown_inside ∷ log) = IsHeld routes target log
IsHeld routes target (bind_device device ∷ log) = IsHeld routes target log
IsHeld routes target (connect ip ∷ log) =
    ((ip ≡ target) × IsBound routes target log) × IsHeld routes target log
IsHeld routes target (send bytes ∷ log) = IsBound routes target log × IsHeld routes target log
IsHeld routes target (write_inside bytes ∷ log) = IsHeld routes target log

module _ (routes : List Route) (sockets : Sockets) (target : IpAddr) where
  abbrev pub Held : Log → Type 0
  Held log = IsHeld routes target log

  abbrev pub Ready : Log → Type 0
  Ready log = IsHeld routes target log × IsBound routes target log

  -- Work that leads from the one to the other, and is held however it ends.
  abbrev pub Leads : {A : Type 0} → (Log → Type 0) → (Log → Type 0) → Action Log A → Type 0
  Leads P Q m = Promises P m (λ a log. Q log) Held

  pub made-Leads :
      {P : Log → Type 0} (Q : Log → Type 0) (works : Bool) (call : SocketCall)
      → ((log : Log) → P log → Held log)
      → ((log : Log) → P log → Q (call ∷ log))
      → Leads P Q (made routes sockets works call)
  made-Leads {P = P} Q works call hurt h =
      bind-Promises (λ done log. P log) (lift (guard works socket_failed)) _
        (lift-Promises _ (guard works socket_failed) hurt (λ log done p e. p))
        (λ done. modify-Promises _ (λ log. call ∷ log) h)

  pub tried-Leads :
      {P : Log → Type 0} (Q : Log → Type 0) (works : Bool) (call : SocketCall)
      → ((log : Log) → Q log → Held log)
      → ((log : Log) → P log → Q (call ∷ log))
      → Leads P Q (tried routes sockets works call)
  tried-Leads Q works call hurt h =
      bind-Promises (λ done log. Q log) (modify (λ log. call ∷ log)) _
        (modify-Promises _ (λ log. call ∷ log) h)
        (λ done. lift-Promises _ (guard works socket_failed) hurt (λ log done q e. q))

  open_for-Held : (ip : IpAddr) (log : Log) → Held log → Held (open_for ip ∷ log)
  unfolding IsHeld
  open_for-Held (v4 ip) log h = h
  open_for-Held (v6 ip) log h = h

  pub bind_any-Held : (log : Log) → Held log → Held (bind_any ∷ log)
  unfolding IsHeld
  bind_any-Held log h = h

  pub open-Leads : Leads Held Held (made routes sockets sockets.opens (open_for target))
  open-Leads = made-Leads Held sockets.opens (open_for target) (λ log h. h) (open_for-Held target)

  pub bind_device-Leads :
      (device : Text)
      → egress routes target ≡ some device
      → Leads Held Ready (made routes sockets (sockets.binds_device device) (bind_device device))
  unfolding IsHeld
  bind_device-Leads device direct =
      made-Leads Ready (sockets.binds_device device) (bind_device device) (λ log h. h)
        (λ log h. (h, (device, direct, refl)))

  pub connect-Leads :
      Leads Ready Ready (tried routes sockets (sockets.connects target) (connect target))
  unfolding IsHeld
  connect-Leads =
      tried-Leads Ready (sockets.connects target) (connect target) (λ log p. p.0)
        (λ log p. (((refl, p.1), p.0), p.1))
