-- ===== src/Gateway/Steady.antt =====
-- The gateway as a whole: the routing entity, which no event changes.
use snet_gateway.Prelude.{
  ℕ, ◌≡◌, ◌∙◌, Option, none, some, List, [], ◌∷◌, arith, Option-cases, inl, inr, get_elem?,
}
use snet_gateway.Prelude.Result.{ok, null_pointer, >>=-eq-ok, or_fault}
use snet_gateway.External.FrameEndpoint.{FrameEndpoint}
use snet_gateway.External.Message.{SnetServiceMessage}
use snet_gateway.External.HdlcdClient.{HdlcdAccess}
use snet_gateway.Protocol
use snet_gateway.Protocol.{GatewayAccessFrame, Callback, data_callback, closed_callback}
use snet_gateway.Handler
use snet_gateway.Collection.Identity.{find}
use snet_gateway.Routing.{Component, Forward, nowhere, to_hdlcd, to_clients, gwclients, hdlcd}
use snet_gateway.Hdlcd
use snet_gateway.Gateway.{
  Gateway, carry_out, route, put, run_callback, run_callbacks, on_accept, on_frame, on_closed,
  on_data, on_completion, Event, accepted, frame_read, client_closed, data_read, completed, handle,
  run,
}

module _ (w : FrameEndpoint GatewayAccessFrame) (m : SnetServiceMessage) (a : HdlcdAccess) where
  carry_out-routing :
      (f : Forward m) (g g' : Gateway w m a) → carry_out w m a f g ≡ ok g' → g'.routing ≡ g.routing
  unfolding carry_out
  carry_out-routing nowhere g g' e = ground arith
  carry_out-routing (to_hdlcd bytes reliable) g g' e = ground arith
  carry_out-routing (to_clients x) g g' e = ground arith

  route-routing :
      (o : Option m.Message) (src_component : Component) (g g' : Gateway w m a)
      → route w m a o src_component g ≡ ok g'
      → g'.routing ≡ g.routing
  unfolding route
  route-routing none src_component g g' e = ground arith
  route-routing (some x) src_component g g' e = carry_out-routing _ g g' e

  run_callback-routing :
      (id : ℕ) (call : Callback) (g g' : Gateway w m a)
      → run_callback w m a id call g ≡ ok g'
      → g'.routing ≡ g.routing
  unfolding run_callback
  run_callback-routing id (data_callback bytes) g g' e =
      elim (Option-cases (find w id g.clients.handlers)) [
        | inl gone ↦ ground (arith, gone)
        | inr (h, found) ↦
            let ((o, h'), served, rest) =
              >>=-eq-ok (Handler.on_payload w m h bytes) _ (rw (found, run_callback) at e) in
            route-routing o gwclients (put w m a h' g) g' rest
      ]
  run_callback-routing id closed_callback g g' e = ground arith

  run_callbacks-routing :
      (id : ℕ) (calls : List Callback) (g g' : Gateway w m a)
      → run_callbacks w m a id calls g ≡ ok g'
      → g'.routing ≡ g.routing
  unfolding run_callbacks
  run_callbacks-routing id [] g g' e = ground arith
  run_callbacks-routing id (call ∷ calls) g g' e =
      let (g1, called, rest) = >>=-eq-ok (run_callback w m a id call g) _ e in
      run_callbacks-routing id calls g1 g' rest ∙ run_callback-routing id call g g1 called

  pub handle-routing :
      (e : Event w m a) (g g' : Gateway w m a) → handle w m a e g ≡ ok g' → g'.routing ≡ g.routing
  unfolding handle on_accept on_frame on_closed on_data on_completion
  handle-routing (accepted o) g g' e = ground arith
  handle-routing (frame_read id frame) g g' e = elim (Option-cases (find w id g.clients.handlers)) [
    | inl gone ↦ ground (arith, gone)
    | inr (h, found) ↦
        let ((calls, p), read, rest) =
          >>=-eq-ok (Protocol.on_frame w h.protocol frame) _ (rw (found, on_frame) at e) in
        run_callbacks-routing id calls _ g' rest
  ]
  handle-routing (client_closed id) g g' e = elim (Option-cases (find w id g.clients.handlers)) [
    | inl gone ↦ ground (arith, gone)
    | inr (h, found) ↦
        let ((calls, p), read, rest) =
          >>=-eq-ok (Protocol.on_closed w h.protocol) _ (rw (found, on_closed) at e) in
        run_callbacks-routing id calls _ g' rest
  ]
  handle-routing (data_read index bytes) g g' e =
      elim (Option-cases (get_elem? g.daemons.handlers index)) [
        | inl gone ↦ ground (arith, gone)
        | inr (o, found) ↦
            let (h, present, rest) =
              >>=-eq-ok (or_fault null_pointer o) _ (rw (found, on_data) at e) in
            let (x, read, routed) = >>=-eq-ok (Hdlcd.on_data a m h bytes) _ rest in
            route-routing x hdlcd g g' routed
      ]
  handle-routing (completed index event) g g' e = ground arith

  pub run-routing :
      (es : List (Event w m a)) (g g' : Gateway w m a)
      → run w m a es g ≡ ok g'
      → g'.routing ≡ g.routing
  unfolding run
  run-routing [] g g' e = ground arith
  run-routing (x ∷ es) g g' e =
      let (t, done, rest) = >>=-eq-ok (handle w m a x g) _ e in
      run-routing es t g' rest ∙ handle-routing x g t done
