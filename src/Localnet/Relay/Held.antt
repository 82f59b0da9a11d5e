-- ===== src/Localnet/Relay/Held.antt =====
-- Nothing leaves by another interface than the one that the destination is reached on directly.
use climate.Common.{
  Text, context, context-eq-ok, if◌then◌else◌, is_empty, Option, none, some, List, [], ◌∷◌, Bool,
  true, false, Result, ok, err, ◌≡◌, refl,
}
use climate.Common.Error.{Error, not_permitted, socket_failed}
use climate.Common.Action.{
  Action, Promises, Ends, pure, lift, pure-Promises, lift-Promises, bind-Promises, Promises-weaken,
}
use climate.Localnet.Route.{IpAddr, Route}
use climate.Localnet.Egress.{egress}
use climate.Localnet.Relay.{
  bind_any, shutdown_inside, bind_device, connect, send, write_inside, Log, Sockets, Passing, up,
  down, read_failed, open_for, made, tried, connect_tcp, pass, joined, relay_tcp, relay_packets,
  relay_from, relay_udp,
}
use climate.Localnet.Relay.Bound.{
  IsHeld, IsBound, made-Leads, tried-Leads, bind_any-Held, open-Leads, bind_device-Leads,
  connect-Leads,
}

module _ (routes : List Route) (sockets : Sockets) (target : IpAddr) where
  abbrev Held : Log → Type 0
  Held log = IsHeld routes target log

  abbrev Ready : Log → Type 0
  Ready log = IsHeld routes target log × IsBound routes target log

  abbrev Leads : {A : Type 0} → (Log → Type 0) → (Log → Type 0) → Action Log A → Type 0
  Leads P Q m = Promises P m (λ a log. Q log) Held

  pass-Leads : (passing : List Passing) → Leads Ready Ready (pass routes sockets passing)
  unfolding pass IsHeld
  pass-Leads [] = pure-Promises _ _ tt (λ log p. p)
  pass-Leads (up bytes works ∷ passing) =
      bind-Promises (λ done log. Ready log) (tried routes sockets works (send bytes)) _
        (tried-Leads routes sockets target Ready works (send bytes) (λ log p. p.0)
          (λ log p. ((p.1, p.0), p.1)))
        (λ done. pass-Leads passing)
  pass-Leads (down bytes works ∷ passing) =
      bind-Promises (λ done log. Ready log) (tried routes sockets works (write_inside bytes)) _
        (tried-Leads routes sockets target Ready works (write_inside bytes) (λ log p. p.0)
          (λ log p. (p.0, p.1)))
        (λ done. pass-Leads passing)
  pass-Leads (read_failed ∷ passing) =
      lift-Promises _ (err socket_failed) (λ log p. p.0) (λ log done p e. p)

  relay_packets-Leads :
      (passing : List Passing) → Leads Ready Ready (relay_packets routes sockets passing)
  unfolding relay_packets IsHeld
  relay_packets-Leads [] = pure-Promises _ _ tt (λ log p. p)
  relay_packets-Leads (up bytes works ∷ passing) = unless_empty (is_empty bytes) (
      bind-Promises (λ done log. Ready log) (tried routes sockets works (send bytes)) _
        (tried-Leads routes sockets target Ready works (send bytes) (λ log p. p.0)
          (λ log p. ((p.1, p.0), p.1)))
        (λ done. relay_packets-Leads passing))
    where
      unless_empty :
          {m : Action Log (Unit {0})} (b : Bool)
          → Leads Ready Ready m
          → Leads Ready Ready (if b then pure tt else m)
      unless_empty true h = pure-Promises _ _ tt (λ log p. p)
      unless_empty false h = h
  relay_packets-Leads (down bytes works ∷ passing) =
      bind-Promises (λ done log. Ready log) (tried routes sockets works (write_inside bytes)) _
        (tried-Leads routes sockets target Ready works (write_inside bytes) (λ log p. p.0)
          (λ log p. (p.0, p.1)))
        (λ done. relay_packets-Leads passing)
  relay_packets-Leads (read_failed ∷ passing) =
      lift-Promises _ (err socket_failed) (λ log p. p.0) (λ log done p e. p)

  connect_tcp-Leads : Leads Held Ready (connect_tcp routes sockets target)
  unfolding connect_tcp
  connect_tcp-Leads =
      bind-Promises (λ device log. Held log × (egress routes target ≡ some device))
        (lift (context (egress routes target) not_permitted)) _
        (lift-Promises _ (context (egress routes target) not_permitted) (λ log h. h)
          (λ log device h e. (h, context-eq-ok (egress routes target) not_permitted e)))
        (λ device. record {
          ends = λ log p.
              (bind-Promises (λ done log. Held log)
                  (made routes sockets sockets.opens (open_for target)) _
                  (open-Leads routes sockets target)
                  (λ done.
                    bind-Promises (λ done log. Ready log)
                      (made routes sockets (sockets.binds_device device) (bind_device device)) _
                      (bind_device-Leads routes sockets target device p.1)
                      (λ done. connect-Leads routes sockets target))).ends
                log p.0;
        })

  shut_down-Leads : Leads Held Held (tried routes sockets sockets.shuts_down shutdown_inside)
  unfolding IsHeld
  shut_down-Leads =
      tried-Leads routes sockets target Held sockets.shuts_down shutdown_inside (λ log h. h)
        (λ log h. h)

  relay_tcp-Leads :
      (passing : List Passing) → Leads Held Held (relay_tcp routes sockets target passing)
  unfolding relay_tcp Ends
  relay_tcp-Leads passing = record {
    ends = λ log h. go (connect_tcp routes sockets target log) (connect_tcp-Leads.ends log h);
  }
    where
      go :
          (out : Result Error (Unit {0}) × Log)
          → Ends (λ done log. Ready log) Held out
          → Ends (λ done log. Held log) Held (joined routes sockets passing out.0 out.1)
      go (ok done, log) p =
          (Promises-weaken (pass routes sockets passing) (pass-Leads passing) (λ l d q. q.0)
              (λ l q. q)).ends
            log p
      go (err e, log) p = shut_down-Leads.ends log p

  relay_udp-Leads :
      (passing : List Passing) → Leads Held Held (relay_udp routes sockets target passing)
  unfolding relay_udp
  relay_udp-Leads passing = from (egress routes target) refl
    where
      from :
          (device : Option Text)
          → egress routes target ≡ device
          → Leads Held Held (relay_from routes sockets target passing device)
      from none direct = pure-Promises _ _ tt (λ log p. p)
      from (some device) direct =
          bind-Promises (λ done log. Held log) (made routes sockets sockets.opens (open_for target))
            _ (open-Leads routes sockets target)
            (λ done.
              bind-Promises (λ done log. Held log) (made routes sockets sockets.binds_any bind_any)
                _
                (made-Leads routes sockets target Held sockets.binds_any bind_any (λ log h. h)
                  (bind_any-Held routes sockets target))
                (λ done.
                  bind-Promises (λ done log. Ready log)
                    (made routes sockets (sockets.binds_device device) (bind_device device)) _
                    (bind_device-Leads routes sockets target device direct)
                    (λ done.
                      bind-Promises (λ done log. Ready log)
                        (tried routes sockets (sockets.connects target) (connect target)) _
                        (connect-Leads routes sockets target)
                        (λ done.
                          Promises-weaken (relay_packets routes sockets passing)
                            (relay_packets-Leads passing) (λ log done p. p.0) (λ log p. p)))))

-- Whatever the container sends to a destination, over TCP or UDP, the relay connects to that destination
-- and nowhere else, and it connects and sends only while its socket is bound to the interface on which
-- the destination is directly reached. So nothing goes to a destination that has no such interface.
pub relay-IsHeld :
    (routes : List Route) (sockets : Sockets) (target : IpAddr) (passing : List Passing)
    → Ends
        (λ done log. IsHeld routes target log)
        (IsHeld routes target)
        (relay_tcp routes sockets target passing [])
      × Ends
          (λ done log. IsHeld routes target log)
          (IsHeld routes target)
          (relay_udp routes sockets target passing [])
unfolding IsHeld
relay-IsHeld routes sockets target passing = (
  (relay_tcp-Leads routes sockets target passing).ends [] tt,
  (relay_udp-Leads routes sockets target passing).ends [] tt,
)
