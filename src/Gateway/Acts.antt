-- ===== src/Gateway/Acts.antt =====
-- The gateway as a whole: what the calls of a handler do to the clients.
use mathlib.Core.Path.{subst}
use snet_gateway.Prelude.{
  ℕ, ◌≡◌, ◌≢◌, refl, ap, ◌∙◌, sym, Option, none, some, List, [], ◌∷◌, arith, Bytes, All, Bool,
}
use snet_gateway.Prelude.Result.{ok, >>=-eq-ok}
use snet_gateway.External.FrameEndpoint.{FrameEndpoint}
use snet_gateway.External.Message.{SnetServiceMessage}
use snet_gateway.External.HdlcdClient.{HdlcdAccess}
use snet_gateway.Protocol
use snet_gateway.Protocol.{
  GatewayAccessFrame, GatewayAccessProtocol, Callback, data_callback, closed_callback, unknown,
}
use snet_gateway.Protocol.Calls.{HasPacket, delivered-HasPacket, on_frame-IsAtMostOne}
use snet_gateway.Spec.{Client, ActsAs}
use snet_gateway.Handler
use snet_gateway.Handler.{GatewayAccessServerHandler}
use snet_gateway.Handler.View.{
  Asks, IsServed-mono, IsServed-IsTurn, IsSame-IsServed, IsSame-refl, on_payload-IsServed,
}
use snet_gateway.Collection
use snet_gateway.Collection.{GatewayAccessServerHandlerCollection, close_handler, remove}
use snet_gateway.Collection.Identity.{
  find, find-replace, replace-replace, remove-replace, remove-Lacks,
}
use snet_gateway.Collection.Invariant.{close_handler_lem}
use snet_gateway.Collection.Validity.{found-IsOpen}
use snet_gateway.Collection.Clients.{
  clients, clients-Lacks, replace-ActsAs, remove-ActsAs, send-clients,
}
use snet_gateway.Routing.{Component, Forward, nowhere, to_hdlcd, to_clients, gwclients}
use snet_gateway.HdlcdCollection
use snet_gateway.Gateway.{Gateway, carry_out, route, put, run_callback, run_callbacks}
use snet_gateway.Gateway.Invariant.{IsRunning}

module _ (w : FrameEndpoint GatewayAccessFrame) (m : SnetServiceMessage) (a : HdlcdAccess) where
  abbrev pub clients_of : Gateway w m a → List Client
  clients_of g = clients w g.clients.handlers

  -- A frame asks for a request: to subscribe to a service, if `subscribes` holds, or to unsubscribe.
  abbrev pub AsksFor : GatewayAccessFrame → ℕ → Bool → Type 0
  AsksFor frame i subscribes = (bytes : Bytes) × HasPacket frame bytes × Asks w m bytes i subscribes

  carry_out-clients :
      (f : Forward m) (g g' : Gateway w m a)
      → carry_out w m a f g ≡ ok g'
      → clients_of g' ≡ clients_of g
  unfolding carry_out
  carry_out-clients nowhere g g' e = ground arith
  carry_out-clients (to_hdlcd bytes reliable) g g' e =
      let (d, sent, last) = >>=-eq-ok (HdlcdCollection.send a g.daemons bytes reliable) _ e in
      let same : record g { daemons = d } ≡ g' = ground arith in
      subst (λ (u : Gateway w m a). clients_of u ≡ clients_of g) same refl
  carry_out-clients (to_clients x) g g' e =
      let (c, sent, last) = >>=-eq-ok (Collection.send w m g.clients x) _ e in
      let same : record g { clients = c } ≡ g' = ground arith in
      subst (λ (u : Gateway w m a). clients_of u ≡ clients_of g) same
        (send-clients w m g.clients c x sent)

  pub route-clients :
      (o : Option m.Message) (src_component : Component) (g g' : Gateway w m a)
      → route w m a o src_component g ≡ ok g'
      → clients_of g' ≡ clients_of g
  unfolding route
  route-clients none src_component g g' e = ground arith
  route-clients (some x) src_component g g' e = carry_out-clients _ g g' e

  -- A client's close takes it off the list.
  close_callback-clients :
      (id : ℕ) (g g' : Gateway w m a) (h : GatewayAccessServerHandler w)
      → find w id g.clients.handlers ≡ some h
      → IsRunning w m a g
      → run_callback w m a id closed_callback g ≡ ok g'
      → g'.clients.handlers ≡ remove w id g.clients.handlers
  unfolding run_callback
  close_callback-clients id g g' h found v e =
      let (is_open, same) = found-IsOpen w g.clients id h found v.valid in
      let closes = close_handler_lem w g.clients h is_open in
      let ran = rw (found, run_callback) at e in ground (arith, ran, closes, same)

  -- The client after a frame of the protocol, and the gateway before the calls of that frame.
  module _ (g : Gateway w m a) (id : ℕ) (h : GatewayAccessServerHandler w)
      (found : find w id g.clients.handlers ≡ some h) (v : IsRunning w m a g)
      (q : GatewayAccessProtocol w) (same : h.id ≡ id) where
    abbrev read_by : GatewayAccessServerHandler w
    read_by = record h { protocol = q }

    abbrev after_frame : Gateway w m a
    after_frame = put w m a read_by g

    data_callback-ActsAs :
        (frame : GatewayAccessFrame) (bytes : Bytes) (g' : Gateway w m a)
        → (h.protocol.framing_mode ≢ unknown → q.framing_mode ≡ h.protocol.framing_mode)
        → IsRunning w m a after_frame
        → HasPacket frame bytes
        → run_callback w m a id (data_callback bytes) after_frame ≡ ok g'
        → ActsAs id (AsksFor frame) (clients_of g) (clients_of g')
    unfolding run_callback
    data_callback-ActsAs frame bytes g' chosen u has_packet e =
        let again = find-replace w id h read_by g.clients.handlers found same in
        let (l, leased) = (found-IsOpen w after_frame.clients id read_by again u.valid).0.lease in
        let ((o, h'), served, rest) =
          >>=-eq-ok (Handler.on_payload w m read_by bytes) _ (rw (again, run_callback) at e) in
        let turn =
          IsServed-mono w (Asks w m bytes) (AsksFor frame) read_by h'
            (λ i b asked. (bytes, has_packet, asked))
            (on_payload-IsServed w m read_by h' l bytes o leased served) in
        let kept = route-clients o gwclients (put w m a h' after_frame) g' rest in
        let twice = replace-replace w read_by h' g.clients.handlers turn.id in
        subst (ActsAs id (AsksFor frame) (clients_of g)) (sym (kept ∙ ap (clients w) twice)) (
          replace-ActsAs w (AsksFor frame) g.clients id h h' found v.valid
            (IsServed-IsTurn w (AsksFor frame) h h' q chosen turn))

    pub closed_callback-ActsAs :
        (R : ℕ → Bool → Type 0) (g' : Gateway w m a)
        → IsRunning w m a after_frame
        → run_callback w m a id closed_callback after_frame ≡ ok g'
        → ActsAs id R (clients_of g) (clients_of g')
          × All (λ (c : Client). c.id ≢ id) (clients_of g')
    closed_callback-ActsAs R g' u e =
        let again = find-replace w id h read_by g.clients.handlers found same in
        let gone = close_callback-clients id after_frame g' read_by again u e in
        let forgotten : remove w id after_frame.clients.handlers ≡ remove w id g.clients.handlers =
          cc (remove-replace w read_by g.clients.handlers, same) in
        let left = gone ∙ forgotten in
        (
          subst (ActsAs id R (clients_of g)) (sym (ap (clients w) left))
              (remove-ActsAs w R g.clients id h found v.valid),
          clients-Lacks w id g'.clients.handlers (rw left (remove-Lacks w id g.clients.handlers)),
        )

    pub callbacks-ActsAs :
        (frame : GatewayAccessFrame) (calls : List Callback) (g' : Gateway w m a)
        → Protocol.on_frame w h.protocol frame ≡ ok (calls, q)
        → (h.protocol.framing_mode ≢ unknown → q.framing_mode ≡ h.protocol.framing_mode)
        → IsRunning w m a after_frame
        → run_callbacks w m a id calls after_frame ≡ ok g'
        → ActsAs id (AsksFor frame) (clients_of g) (clients_of g')
    unfolding run_callbacks
    callbacks-ActsAs frame [] g' read chosen u e =
        let served = IsSame-IsServed w (AsksFor frame) read_by read_by (IsSame-refl w read_by) in
        let stays : after_frame ≡ g' = ground arith in
        subst (λ (t : Gateway w m a). ActsAs id (AsksFor frame) (clients_of g) (clients_of t)) stays
          (replace-ActsAs w (AsksFor frame) g.clients id h read_by found v.valid
            (IsServed-IsTurn w (AsksFor frame) h read_by q chosen served))
    callbacks-ActsAs frame (data_callback bytes ∷ []) g' read chosen u e =
        data_callback-ActsAs frame bytes g' chosen u
          (delivered-HasPacket w h.protocol q frame bytes read) (ground arith)
    callbacks-ActsAs frame (closed_callback ∷ []) g' read chosen u e =
        (closed_callback-ActsAs (AsksFor frame) g' u (ground arith)).0
    callbacks-ActsAs frame (call ∷ other ∷ calls) g' read chosen u e =
        elim (on_frame-IsAtMostOne w h.protocol q frame (call ∷ other ∷ calls) read) [ ]
