-- ===== src/Gateway/Refinement.antt =====
-- The gateway as a whole: what an event does to the clients, as Spec.antt promises it.
use mathlib.Core.Path.{subst}
use snet_gateway.Prelude.{
  ℕ, ◌≡◌, ◌≢◌, ◌<◌, refl, ◌∙◌, none, some, List, arith, Bytes, Option-cases, inl, inr, length,
  get_elem?, All, Bool,
}
use snet_gateway.Prelude.Result.{ok, null_pointer, >>=-eq-ok, or_fault}
use snet_gateway.External.FrameEndpoint.{FrameEndpoint}
use snet_gateway.External.Message.{SnetServiceMessage}
use snet_gateway.External.HdlcdClient.{HdlcdAccess}
use snet_gateway.AddressPool.Leases.{max_clients}
use snet_gateway.Protocol
use snet_gateway.Protocol.{
  GatewayAccessFrame, GatewayAccessProtocol, Callback, data_callback, closed_callback, unknown,
}
use snet_gateway.Protocol.Modes.{on_frame-mode, next_mode-known}
use snet_gateway.Protocol.Calls.{on_closed_lem}
use snet_gateway.Spec.{Client, ActsAs, rests, Joins}
use snet_gateway.Collection
use snet_gateway.Collection.{GatewayAccessServerHandlerCollection, close_handler, remove}
use snet_gateway.Collection.Identity.{find, find-Lacks}
use snet_gateway.Collection.Validity.{found-IsOpen}
use snet_gateway.Collection.Clients.{clients-Lacks, on_accept-Joins}
use snet_gateway.Routing.{hdlcd}
use snet_gateway.Hdlcd
use snet_gateway.Gateway.{
  Gateway, run_callbacks, on_frame, on_closed, on_data, on_accept, on_completion, Event, accepted,
  frame_read, client_closed, data_read, completed, handle,
}
use snet_gateway.Gateway.Acts.{
  clients_of, AsksFor, route-clients, closed_callback-ActsAs, callbacks-ActsAs,
}
use snet_gateway.Gateway.Events.{Keeps-protocol, on_frame-Keeps, on_closed-Keeps}
use snet_gateway.Gateway.Invariant.{IsRunning, put-IsRunning}
use snet_gateway.Gateway.Runs.{HasRoom}

module _ (w : FrameEndpoint GatewayAccessFrame) (m : SnetServiceMessage) (a : HdlcdAccess) where
  frame-ActsAs :
      (id : ℕ) (frame : GatewayAccessFrame) (g g' : Gateway w m a)
      → on_frame w m a id frame g ≡ ok g'
      → IsRunning w m a g
      → ActsAs id (AsksFor w m a frame) (clients_of w m a g) (clients_of w m a g')
  unfolding on_frame
  frame-ActsAs id frame g g' e v = elim (Option-cases (find w id g.clients.handlers)) [
    | inl gone ↦ rests (ground (arith, gone))
    | inr (h, found) ↦
        let ((calls, q), read, rest) =
          >>=-eq-ok (Protocol.on_frame w h.protocol frame) _ (rw (found, on_frame) at e) in
        let (is_open, same) = found-IsOpen w g.clients id h found v.valid in
        let (mode, told) = on_frame-mode w h.protocol frame calls q read in
        let kept = Keeps-protocol w h q (on_frame-Keeps w h.protocol q frame calls read) in
        callbacks-ActsAs w m a g id h found v q same frame calls g' read
          (λ known. mode ∙ next_mode-known h.protocol.framing_mode frame known)
          (put-IsRunning w m a g id h _ found kept v) rest
  ]

  -- The end of a connection asks for nothing.
  abbrev pub IsNothing : ℕ → Bool → Type 0
  IsNothing i b = ⊥

  closed-ActsAs :
      (id : ℕ) (g g' : Gateway w m a)
      → on_closed w m a id g ≡ ok g'
      → IsRunning w m a g
      → ActsAs id IsNothing (clients_of w m a g) (clients_of w m a g')
        × All (λ (c : Client). c.id ≢ id) (clients_of w m a g')
  unfolding on_closed run_callbacks
  closed-ActsAs id g g' e v = elim (Option-cases (find w id g.clients.handlers)) [
    | inl gone ↦
        let stays : g ≡ g' = ground (arith, gone) in
        subst
          (λ (t : Gateway w m a).
            ActsAs id IsNothing (clients_of w m a g) (clients_of w m a t)
            × All (λ (c : Client). c.id ≢ id) (clients_of w m a t))
          stays (rests refl, clients-Lacks w id _ (find-Lacks w id g.clients.handlers gone))
    | inr (h, found) ↦
        let (is_open, same) = found-IsOpen w g.clients id h found v.valid in
        let (q, read) = on_closed_lem w h.protocol is_open.endpoint is_open.on_closed in
        let kept = Keeps-protocol w h q (on_closed-Keeps w h.protocol q _ read) in
        let ran = rw read at (rw (found, on_closed) at e) in
        closed_callback-ActsAs w m a g id h found v q same IsNothing g'
          (put-IsRunning w m a g id h _ found kept v) (ground (arith, ran))
  ]

  data-clients :
      (index : ℕ) (bytes : Bytes) (g g' : Gateway w m a)
      → on_data w m a index bytes g ≡ ok g'
      → clients_of w m a g' ≡ clients_of w m a g
  unfolding on_data
  data-clients index bytes g g' e = elim (Option-cases (get_elem? g.daemons.handlers index)) [
    | inl gone ↦ ground (arith, gone)
    | inr (o, found) ↦
        let (h, present, rest) = >>=-eq-ok (or_fault null_pointer o) _ (rw (found, on_data) at e) in
        let (x, read, routed) = >>=-eq-ok (Hdlcd.on_data a m h bytes) _ rest in
        route-clients w m a x hdlcd g g' routed
  ]

  accept-Joins :
      (e : w.Endpoint) (g g' : Gateway w m a)
      → length g.clients.handlers < max_clients
      → on_accept w m a (some e) g ≡ ok g'
      → IsRunning w m a g
      → Joins (clients_of w m a g) (clients_of w m a g')
  unfolding on_accept
  accept-Joins x g g' few e v =
      let (c, taken, last) = >>=-eq-ok (Collection.on_accept w (some x) g.clients) _ e in
      let same : record g { clients = c } ≡ g' = ground arith in
      subst (λ (u : Gateway w m a). Joins (clients_of w m a g) (clients_of w m a u)) same
        (on_accept-Joins w g.clients c x v.has_routing few v.valid taken)

  -- What an event may do to the clients.
  abbrev pub IsAllowed : Event w m a → List Client → List Client → Type 0
  IsAllowed (accepted none) cs cs' = cs' ≡ cs
  IsAllowed (accepted (some e)) cs cs' = Joins cs cs'
  IsAllowed (frame_read id frame) cs cs' = ActsAs id (AsksFor w m a frame) cs cs'
  IsAllowed (client_closed id) cs cs' =
      ActsAs id IsNothing cs cs' × All (λ (c : Client). c.id ≢ id) cs'
  IsAllowed (data_read index bytes) cs cs' = cs' ≡ cs
  IsAllowed (completed index event) cs cs' = cs' ≡ cs

  -- Each event of a running gateway that does not fault does to the clients only what it may. A
  -- connection that is accepted while there is a free address is a client that joins at the end, with
  -- an address of the clients' range that nobody else has, no framing mode and no subscription. A
  -- frame from a client leaves every other client as it was: its own client takes at most one turn, in
  -- which it keeps its address, and its mode once it has one, or it leaves. In its turn its subscriptions
  -- stay, or they change exactly by the request that is in the packet of this very frame: to subscribe
  -- to the service that it names, or to unsubscribe, or for all services by 0xFF. After the end of its
  -- connection a client is gone. A failed accept, and whatever comes from the HDLC daemons, change
  -- nothing about the clients.
  pub handle_refines :
      (e : Event w m a) (g g' : Gateway w m a)
      → IsRunning w m a g
      → HasRoom w m a e g
      → handle w m a e g ≡ ok g'
      → IsAllowed e (clients_of w m a g) (clients_of w m a g')
  unfolding handle on_accept Collection.on_accept on_completion
  handle_refines (accepted none) g g' v few e = ground arith
  handle_refines (accepted (some x)) g g' v few e = accept-Joins x g g' few e v
  handle_refines (frame_read id frame) g g' v few e = frame-ActsAs id frame g g' e v
  handle_refines (client_closed id) g g' v few e = closed-ActsAs id g g' e v
  handle_refines (data_read index bytes) g g' v few e = data-clients index bytes g g' e
  handle_refines (completed index event) g g' v few e = ground arith
