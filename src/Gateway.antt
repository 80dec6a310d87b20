-- ===== src/Gateway.antt =====
-- The gateway as a whole: the client collection, the HDLCd collection and the routing entity, with
-- the calls between them carried out (GatewayAccessServerHandler.cpp, Routing.cpp and
-- main-snet-gateway.cpp). An event is a completion that the event loop delivers.
pub mod Events
pub mod Invariant
pub mod Runs
pub mod Acts
pub mod Refinement
pub mod Totality
pub mod Crashes
pub mod Overload
pub mod Termination
pub mod Isolation
pub mod Subscribing
pub mod Assigning
pub mod Steady
pub mod Daemons
pub mod Links
pub mod Recovery
pub mod Subscribed
pub mod Relay
pub mod Delivery
pub mod Exchange
pub mod Wire
pub mod Requests
pub mod Peers
pub mod Uplink
use snet_gateway.Prelude.{
  ℕ, zero, suc, Bool, true, false, Option, none, some, List, [], ◌∷◌, Bytes, get_elem?,
}
use snet_gateway.Prelude.Result.{Result, ok, null_pointer, ◌>>=◌, or_fault}
use snet_gateway.External.FrameEndpoint.{FrameEndpoint}
use snet_gateway.External.Message.{SnetServiceMessage}
use snet_gateway.External.HdlcdClient.{HdlcdAccess}
use snet_gateway.Protocol
use snet_gateway.Protocol.{GatewayAccessFrame, Callback, data_callback, closed_callback}
use snet_gateway.Handler
use snet_gateway.Handler.{GatewayAccessServerHandler}
use snet_gateway.Collection
use snet_gateway.Collection.{GatewayAccessServerHandlerCollection}
use snet_gateway.Collection.Identity.{find, replace}
use snet_gateway.Routing
use snet_gateway.Routing.{
  Component, hdlcd, gwclients, Routing, Forward, nowhere, to_hdlcd, to_clients,
}
use snet_gateway.Hdlcd
use snet_gateway.Hdlcd.{HdlcdClientHandler}
use snet_gateway.HdlcdCollection
use snet_gateway.HdlcdCollection.{HdlcdClientHandlerCollection}

-- What happens to an HDLCd handler besides data: the completions of its timer (with an error or not),
-- of its resolver (with an error or not) and of its connect, and the end of its connection.
pub data Completion : Type 0 where
  timer resolved connected : Bool → Completion
  disconnected : Completion

module _ (w : FrameEndpoint GatewayAccessFrame) (m : SnetServiceMessage) (a : HdlcdAccess) where
  pub record Gateway : Type 0 where
    pub clients : GatewayAccessServerHandlerCollection w
    pub daemons : HdlcdClientHandlerCollection a
    pub routing : Routing

  -- What `RouteSnetPacket` hands a packet to.
  carry_out : Forward m → Gateway → Result Gateway
  carry_out nowhere g = ok g
  carry_out (to_hdlcd bytes reliable) g = do
    d ← HdlcdCollection.send a g.daemons bytes reliable
    ok (record g { daemons = d })
  carry_out (to_clients x) g = do c ← Collection.send w m g.clients x; ok (record g { clients = c })

  unfoldable pub route : Option m.Message → Component → Gateway → Result Gateway
  unfolding carry_out
  route none src_component g = ok g
  route (some x) src_component g =
      carry_out (Routing.route_snet_packet m g.routing x src_component).forward g

  -- A handler with a new state.
  abbrev pub put : GatewayAccessServerHandler w → Gateway → Gateway
  put h g = record g { clients = record g.clients { handlers = replace w h g.clients.handlers } }

  -- The callbacks that a handler sets.
  pub run_callback : ℕ → Callback → Gateway → Result Gateway
  run_callback id (data_callback bytes) g = elim (find w id g.clients.handlers) [
    | none ↦ ok g
    | some h ↦ (do (o, h') ← Handler.on_payload w m h bytes; route o gwclients (put h' g))
  ]
  run_callback id closed_callback g = elim (find w id g.clients.handlers) [
    | none ↦ ok g
    | some h ↦ (do c ← Collection.close_handler w h g.clients; ok (record g { clients = c }))
  ]

  pub run_callbacks : ℕ → List Callback → Gateway → Result Gateway
  unfolding run_callback
  run_callbacks id [] g = ok g
  run_callbacks id (call ∷ calls) g = do g' ← run_callback id call g; run_callbacks id calls g'

  -- A connection is accepted, or its accept has failed.
  unfoldable pub on_accept : Option w.Endpoint → Gateway → Result Gateway
  on_accept o g = do c ← Collection.on_accept w o g.clients; ok (record g { clients = c })

  -- A frame of the client with an identity is complete.
  unfoldable pub on_frame : ℕ → GatewayAccessFrame → Gateway → Result Gateway
  unfolding run_callbacks
  on_frame id frame g = elim (find w id g.clients.handlers) [
    | none ↦ ok g
    | some h ↦ (do
      (calls, p) ← Protocol.on_frame w h.protocol frame
      run_callbacks id calls (put (record h { protocol = p }) g))
  ]

  -- The connection of a client is closed.
  unfoldable pub on_closed : ℕ → Gateway → Result Gateway
  unfolding run_callbacks
  on_closed id g = elim (find w id g.clients.handlers) [
    | none ↦ ok g
    | some h ↦ (do
      (calls, p) ← Protocol.on_closed w h.protocol
      run_callbacks id calls (put (record h { protocol = p }) g))
  ]

  pub complete : Completion → HdlcdClientHandler a → HdlcdClientHandler a
  complete (timer error) h = Hdlcd.on_timer a error h
  complete (resolved error) h = Hdlcd.on_resolved a error h
  complete (connected success) h = Hdlcd.on_connected a success h
  complete disconnected h = Hdlcd.on_closed a h

  pub complete_at :
      ℕ → Completion → List (Option (HdlcdClientHandler a)) → List (Option (HdlcdClientHandler a))
  unfolding complete
  complete_at index event [] = []
  complete_at zero event (none ∷ hs) = none ∷ hs
  complete_at zero event (some h ∷ hs) = some (complete event h) ∷ hs
  complete_at (suc index) event (o ∷ hs) = o ∷ complete_at index event hs

  -- A completion for the HDLCd handler at an index.
  unfoldable pub on_completion : ℕ → Completion → Gateway → Gateway
  unfolding complete_at
  on_completion index event g = record g {
    daemons = record g.daemons { handlers = complete_at index event g.daemons.handlers };
  }

  -- Data has come from the HDLC daemon at an index.
  unfoldable pub on_data : ℕ → Bytes → Gateway → Result Gateway
  on_data index bytes g = elim (get_elem? g.daemons.handlers index) [
    | none ↦ ok g
    | some o ↦ (do h ← or_fault null_pointer o; x ← Hdlcd.on_data a m h bytes; route x hdlcd g)
  ]

  -- What the event loop delivers.
  pub data Event : Type 0 where
    accepted : Option w.Endpoint → Event
    frame_read : ℕ → GatewayAccessFrame → Event
    client_closed : ℕ → Event
    data_read : ℕ → Bytes → Event
    completed : ℕ → Completion → Event

  unfoldable pub handle : Event → Gateway → Result Gateway
  handle (accepted o) g = on_accept o g
  handle (frame_read id frame) g = on_frame id frame g
  handle (client_closed id) g = on_closed id g
  handle (data_read index bytes) g = on_data index bytes g
  handle (completed index event) g = ok (on_completion index event g)

  -- `l_IoService.run()`
  unfoldable pub run : List Event → Gateway → Result Gateway
  run [] g = ok g
  run (e ∷ es) g = do g' ← handle e g; run es g'
