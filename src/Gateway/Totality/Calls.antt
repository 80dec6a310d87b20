-- ===== src/Gateway/Totality/Calls.antt =====
-- The gateway as a whole: what it takes for the calls behind an event not to fault.
use snet_gateway.Prelude.{ℕ, map, ◌≤◌, ◌≡◌, refl, Option, some, none, List, [], ◌∷◌, Bytes, length}
use snet_gateway.Prelude.Result.{ok}
use snet_gateway.External.FrameEndpoint.{FrameEndpoint}
use snet_gateway.External.Message.{SnetServiceMessage, MessageLaws, MessageSizes}
use snet_gateway.External.HdlcdClient.{HdlcdAccess}
use snet_gateway.Protocol.{GatewayAccessFrame, Callback, data_callback, closed_callback}
use snet_gateway.Protocol.Calls.{IsAtMostOne}
use snet_gateway.Handler.{GatewayAccessServerHandler}
use snet_gateway.Handler.Totality.{IsBenign, on_payload-IsOk}
use snet_gateway.Handler.Keeps.{on_payload-Keeps}
use snet_gateway.Collection.Invariant
use snet_gateway.Collection.Identity.{find}
use snet_gateway.Collection.Validity.{found-IsOpen}
use snet_gateway.Collection.Sending.{send-total}
use snet_gateway.Routing.{Component, Forward, nowhere, to_hdlcd, to_clients, gwclients}
use snet_gateway.Routing.Table.{IsOnItsWay, route_snet_packet-IsOnItsWay}
use snet_gateway.Hdlcd
use snet_gateway.Hdlcd.{HdlcdClientHandler}
use snet_gateway.HdlcdCollection.Sending.{pointers, hdlcd_send_all}
use snet_gateway.Gateway.{Gateway, carry_out, route, put, run_callback, run_callbacks}
use snet_gateway.Gateway.Invariant.{IsRunning, put-IsRunning}

module _ (w : FrameEndpoint GatewayAccessFrame) (m : SnetServiceMessage) (a : HdlcdAccess) where
  carry_out-IsOk :
      (x : m.Message) (f : Forward m) (g : Gateway w m a)
      → IsOnItsWay m x f
      → length (m.serialize x) ≤ 4093
      → IsRunning w m a g
      → (g' : Gateway w m a) × (carry_out w m a f g ≡ ok g')
  unfolding carry_out
  carry_out-IsOk x nowhere g way fits v = (g, refl)
  carry_out-IsOk x (to_hdlcd bytes reliable) g way fits v =
      let (hs, all_set, routed) = v.daemons in
      let after = pointers a (map (λ h. Hdlcd.send a h bytes reliable) hs) in
      (
        record g { daemons = record g.daemons { handlers = after } },
        rw (hdlcd_send_all a g.daemons hs bytes reliable all_set) refl,
      )
  carry_out-IsOk x (to_clients y) g (same, high) fits v =
      let (c, sent) = send-total w m g.clients x high fits v.valid in
      (record g { clients = c }, rw (same, sent) refl)

  pub route-IsOk :
      (o : Option m.Message) (src_component : Component) (g : Gateway w m a)
      → ((y : m.Message) → o ≡ some y → length (m.serialize y) ≤ 4093)
      → IsRunning w m a g
      → (g' : Gateway w m a) × (route w m a o src_component g ≡ ok g')
  unfolding route
  route-IsOk none src_component g fits v = (g, refl)
  route-IsOk (some x) src_component g fits v =
      carry_out-IsOk x _ g (route_snet_packet-IsOnItsWay m g.routing x src_component) (fits x refl)
        v

  module _ (laws : MessageLaws m) (sizes : MessageSizes m) where
    callback-IsOk :
        (id : ℕ) (bytes : Bytes) (g : Gateway w m a) (h : GatewayAccessServerHandler w)
        → find w id g.clients.handlers ≡ some h
        → IsBenign w m laws sizes bytes
        → IsRunning w m a g
        → (g' : Gateway w m a) × (run_callback w m a id (data_callback bytes) g ≡ ok g')
    unfolding run_callback
    callback-IsOk id bytes g h found benign v =
        let (is_open, same) = found-IsOpen w g.clients id h found v.valid in
        let (l, leased) = is_open.lease in
        let (o, h', served, bound) = on_payload-IsOk w m laws sizes h l bytes leased benign in
        let kept = on_payload-Keeps w m h h' bytes o served in
        let (g', routed) =
          route-IsOk o gwclients (put w m a h' g) bound
            (put-IsRunning w m a g id h h' found kept v) in
        (g', rw (found, run_callback) (rw served routed))

    pub close_callback-IsOk :
        (id : ℕ) (g : Gateway w m a) (h : GatewayAccessServerHandler w)
        → find w id g.clients.handlers ≡ some h
        → IsRunning w m a g
        → (g' : Gateway w m a) × (run_callback w m a id closed_callback g ≡ ok g')
    unfolding run_callback
    close_callback-IsOk id g h found v =
        let (c, closes, _, _, _) = Invariant.close_handler-IsValid w g.clients id h found v.valid in
        (record g { clients = c }, rw (found, run_callback) (rw closes refl))

    -- The calls of a frame, at most one, if what is delivered is benign.
    pub calls-IsOk :
        (id : ℕ) (calls : List Callback) (g : Gateway w m a) (h : GatewayAccessServerHandler w)
        → IsAtMostOne calls
        → ((b : Bytes) → calls ≡ data_callback b ∷ [] → IsBenign w m laws sizes b)
        → find w id g.clients.handlers ≡ some h
        → IsRunning w m a g
        → (g' : Gateway w m a) × (run_callbacks w m a id calls g ≡ ok g')
    unfolding run_callbacks
    calls-IsOk id [] g h one benign found v = (g, refl)
    calls-IsOk id (data_callback b ∷ []) g h one benign found v =
        let (g', ran) = callback-IsOk id b g h found (benign b refl) v in (g', rw ran refl)
    calls-IsOk id (closed_callback ∷ []) g h one benign found v =
        let (g', ran) = close_callback-IsOk id g h found v in (g', rw ran refl)
    calls-IsOk id (call ∷ other ∷ calls) g h one benign found v = elim one [ ]
