-- ===== src/Collection.antt =====
-- GatewayAccessServerHandlerCollection.cpp: the gateway clients, their addresses and the listener.
-- A handler lives in the list of the collection; the list finds an object by its identity.
pub mod Identity
pub mod Invariant
pub mod Sending
pub mod Overload
pub mod Validity
pub mod Clients
pub mod Shutdown
use snet_gateway.Prelude.{
  ℕ, zero, suc, ◌+◌, Bool, true, false, Option, none, some, List, [], ◌∷◌, ◌++◌, ◌==◌,
  if◌then◌else◌,
}
use snet_gateway.Prelude.Result.{Result, ok, fault, ◌>>=◌, ◌>>◌, check}
use snet_gateway.External.FrameEndpoint.{FrameEndpoint}
use snet_gateway.External.Message.{SnetServiceMessage}
use snet_gateway.Protocol.{GatewayAccessFrame}
use snet_gateway.AddressPool
use snet_gateway.AddressPool.{AddressPool, AddressLease, obtain_address_lease, destroy_lease}
use snet_gateway.Handler
use snet_gateway.Handler.{GatewayAccessServerHandler}

module _ (w : FrameEndpoint GatewayAccessFrame) where
  -- `accepting` is the listener that waits for a connection; `next_id` is the identity of the next
  -- handler that is made.
  pub record GatewayAccessServerHandlerCollection : Type 0 where
    pub address_pool : AddressPool
    pub handlers : List (GatewayAccessServerHandler w)
    pub has_routing : Bool
    pub accepting : Bool
    pub next_id : ℕ

  unfoldable pub construct : GatewayAccessServerHandlerCollection
  construct = record {
    address_pool = AddressPool.construct;
    handlers = [];
    has_routing = false;
    accepting = false;
    next_id = 0;
  }

  -- `Initialize`, with `DoAccept`.
  unfoldable pub initialize :
      Bool → GatewayAccessServerHandlerCollection → Result GatewayAccessServerHandlerCollection
  initialize has_routing c = do
    check has_routing
    ok (record c { has_routing = has_routing; accepting = true })

  unfoldable pub register :
      GatewayAccessServerHandler w
      → GatewayAccessServerHandlerCollection
      → GatewayAccessServerHandlerCollection
  register h c = record c { handlers = c.handlers ++ h ∷ [] }

  -- `std::list::remove`
  pub remove : ℕ → List (GatewayAccessServerHandler w) → List (GatewayAccessServerHandler w)
  remove id [] = []
  remove id (h ∷ hs) = let rest = remove id hs in if h.id == id then rest else h ∷ rest

  unfoldable pub deregister :
      ℕ → GatewayAccessServerHandlerCollection → GatewayAccessServerHandlerCollection
  deregister id c = record c { handlers = remove id c.handlers }

  -- The completion of `async_accept` in `DoAccept`: an error, or the endpoint of a new connection.
  -- Either way the listener waits for the next one.
  unfoldable pub on_accept :
      Option w.Endpoint
      → GatewayAccessServerHandlerCollection
      → Result GatewayAccessServerHandlerCollection
  unfolding register
  on_accept none c = ok c
  on_accept (some e) c = do
    check c.has_routing
    let (l, pool) = obtain_address_lease c.address_pool
    h ← Handler.construct w c.next_id true c.has_routing (some l) e
    h' ← Handler.start w h
    ok (register h' (record c { address_pool = pool; next_id = suc c.next_id }))

  drop_lease :
      ℕ
      → Option AddressLease
      → GatewayAccessServerHandlerCollection
      → GatewayAccessServerHandlerCollection
  unfolding deregister
  drop_lease id none c = c
  drop_lease id (some l) c =
      deregister id (record c { address_pool = destroy_lease l c.address_pool })

  -- `Close` of a handler, with what it does to the pool and to the list.
  unfoldable pub close_handler :
      GatewayAccessServerHandler w
      → GatewayAccessServerHandlerCollection
      → Result GatewayAccessServerHandlerCollection
  unfolding drop_lease
  close_handler h c = do (dropped, h') ← Handler.close w h; ok (drop_lease h.id dropped c)

  -- The loop of `SystemShutdown`, at most `fuel` rounds of it; `none` if they are not enough.
  close_all :
      ℕ
      → GatewayAccessServerHandlerCollection
      → List (GatewayAccessServerHandler w)
      → Option (Result GatewayAccessServerHandlerCollection)
  close_all fuel c [] = some (ok c)
  close_all zero c (h ∷ hs) = none
  close_all (suc fuel) c (h ∷ hs) = elim (close_handler h c) [
    | ok c' ↦ close_all fuel c' c'.handlers
    | fault e ↦ some (fault e)
  ]

  unfoldable pub system_shutdown :
      ℕ
      → GatewayAccessServerHandlerCollection
      → Option (Result GatewayAccessServerHandlerCollection)
  unfolding close_all
  system_shutdown fuel c =
      close_all fuel (record c { accepting = false; has_routing = false }) c.handlers

  module _ (m : SnetServiceMessage) where
    pub send_all :
        List (GatewayAccessServerHandler w)
        → m.Message
        → Result (List (GatewayAccessServerHandler w))
    send_all [] x = ok []
    send_all (h ∷ hs) x = do
      (accepted, h') ← Handler.send w m h x
      hs' ← send_all hs x
      ok (h' ∷ hs')

    -- `Send`
    unfoldable pub send :
        GatewayAccessServerHandlerCollection
        → m.Message
        → Result GatewayAccessServerHandlerCollection
    unfolding send_all
    send c x = do hs ← send_all c.handlers x; ok (record c { handlers = hs })
