-- ===== src/Main/Ending.antt =====
-- main-snet-gateway.cpp: the shutdown of a gateway that has run.
use snet_gateway.Prelude.{ℕ, ◌≤◌, ◌≡◌, refl, none, some, [], List, All, length, false, map}
use snet_gateway.Prelude.Result.{ok}
use snet_gateway.External.FrameEndpoint.{FrameEndpoint}
use snet_gateway.External.Message.{SnetServiceMessage}
use snet_gateway.External.HdlcdClient.{HdlcdAccess}
use snet_gateway.Protocol.{GatewayAccessFrame}
use snet_gateway.Collection.Shutdown
use snet_gateway.Routing
use snet_gateway.HdlcdCollection.Sending.{pointers, closed, system_shutdown-pointers}
use snet_gateway.HdlcdCollection.{Dropped}
use snet_gateway.Hdlcd.{HdlcdClientHandler}
use snet_gateway.AddressPool.Leases.{occurrences, handed_out}
use snet_gateway.Gateway.{Gateway}
use snet_gateway.Gateway.Invariant.{IsRunning}
use snet_gateway.Gateway.Runs.{Run, Run-IsRunning}
use snet_gateway.Main.{shutdown, shut_clients, with_dropped}

module _ (w : FrameEndpoint GatewayAccessFrame) (m : SnetServiceMessage) (a : HdlcdAccess) where
  -- The gateway is shut down, and this has been dropped: no client is left and every address that was
  -- ever leased is back, the listener is closed, and each HDLCd handler that it had is closed, as is the
  -- client of each that has one.
  pub record IsShutDown (before : Gateway w m a) (dropped : List (Dropped a)) (g : Gateway w m a)
      : Type 0 where
    pub no_clients : g.clients.handlers ≡ []
    pub released :
        (address : ℕ)
        → occurrences address g.clients.address_pool.released_addresses
          ≡ handed_out g.clients.address_pool address
    pub not_accepting : g.clients.accepting ≡ false
    pub daemons_closed :
        (hs : List (HdlcdClientHandler a)) × (before.daemons.handlers ≡ pointers a hs)
        × (dropped ≡ map (closed a) hs)
    pub no_daemons : All (λ o. o ≡ none) g.daemons.handlers
    pub routing_clients : g.routing.has_clients ≡ false
    pub routing_hdlcd : g.routing.has_hdlcd ≡ false

  pub shutdown-IsShutDown :
      (fuel : ℕ) (g : Gateway w m a)
      → IsRunning w m a g
      → length g.clients.handlers ≤ fuel
      → (end : Gateway w m a) × (dropped : List (Dropped a)) × (shutdown a w m fuel g
          ≡ some (ok (dropped, end)))
        × IsShutDown g dropped end
  unfolding shutdown shut_clients with_dropped Routing.system_shutdown
  shutdown-IsShutDown fuel g v enough =
      let (hs, all_set, routed) = v.daemons in
      let (d, dropped, empty) = system_shutdown-pointers a g.daemons hs all_set in
      let (c, ends, no_clients, no_routing, not_accepting, released) =
        Shutdown.system_shutdown-IsEmpty w fuel g.clients enough v.valid in
      (
        record { clients = c; daemons = d; routing = Routing.system_shutdown g.routing },
        map (closed a) hs,
        rw (dropped, shutdown, ends, shut_clients) refl,
        record {
          no_clients = no_clients;
          released = released;
          not_accepting = not_accepting;
          daemons_closed = (hs, all_set, refl);
          no_daemons = empty;
          routing_clients = refl;
          routing_hdlcd = refl;
        },
      )

  -- Whenever the event loop of a running gateway stops, after events that do not fault and with
  -- never more clients at once than there are addresses, the shutdown of `main` ends without a
  -- fault within one round for each client: no client, no listener and no HDLCd handler is left,
  -- and the routing entity has dropped both collections.
  pub shutdown_ends :
      (fuel : ℕ) (g g' : Gateway w m a)
      → IsRunning w m a g
      → Run w m a g g'
      → length g'.clients.handlers ≤ fuel
      → (end : Gateway w m a) × (dropped : List (Dropped a)) × (shutdown a w m fuel g'
          ≡ some (ok (dropped, end)))
        × IsShutDown g' dropped end
  shutdown_ends fuel g g' v r enough = shutdown-IsShutDown fuel g' (Run-IsRunning w m a r v) enough
