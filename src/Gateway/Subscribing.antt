-- ===== src/Gateway/Subscribing.antt =====
-- The gateway as a whole: a client's request to its publish-subscribe service.
use snet_gateway.Prelude.{ℕ, ◌≡◌, refl, Bool, some, [], ◌∷◌, Bytes}
use snet_gateway.Prelude.Result.{ok}
use snet_gateway.External.FrameEndpoint.{FrameEndpoint}
use snet_gateway.External.Message.{SnetServiceMessage, MessageLaws, MessageSizes}
use snet_gateway.External.HdlcdClient.{HdlcdAccess}
use snet_gateway.AddressPool.{AddressLease}
use snet_gateway.PublishSubscribe.{PublishSubscribeService}
use snet_gateway.PublishSubscribe.Subscriptions.{IsRequest, request_token}
use snet_gateway.Protocol
use snet_gateway.Protocol.{GatewayAccessFrame, GatewayAccessProtocol, Sent, data_callback}
use snet_gateway.Handler.{GatewayAccessServerHandler}
use snet_gateway.Handler.Subscribing.{Confirms, after_request, on_payload-Confirms}
use snet_gateway.Collection.Identity.{find, replace, find-replace, replace-replace}
use snet_gateway.Collection.Invariant.{IsValid}
use snet_gateway.Collection.Validity.{found-IsOpen}
use snet_gateway.Gateway.{Gateway, on_frame, run_callbacks, run_callback, route, put}

module _ (w : FrameEndpoint GatewayAccessFrame) (m : SnetServiceMessage) (a : HdlcdAccess)
    (laws : MessageLaws m) (sizes : MessageSizes m) where
  -- A frame in which the protocol of a connected client finds a request to subscribe to a service or
  -- to unsubscribe, or for all services by 0xFF, never faults. The confirmation is sent to this client
  -- alone, to its own address, and from then on the client wants exactly the services that it wanted
  -- before, but for those of the request. No other client and no HDLC daemon notices.
  pub subscription_confirmed :
      (g : Gateway w m a) (id : ℕ) (h : GatewayAccessServerHandler w) (l : AddressLease)
      (frame : GatewayAccessFrame) (bytes : Bytes) (x : m.Message) (q : GatewayAccessProtocol w)
      (i : ℕ) (subscribes : Bool)
      → find w id g.clients.handlers ≡ some h
      → h.address_lease ≡ some l
      → Protocol.on_frame w h.protocol frame ≡ ok (data_callback bytes ∷ [], q)
      → m.deserialize bytes ≡ some x
      → IsRequest m x i
      → m.token x ≡ request_token subscribes
      → IsValid w g.clients
      → let h' = record h { protocol = q } in
        (sent : Sent w) × (s : PublishSubscribeService) × (g' : Gateway w m a) × (on_frame w m a id
            frame g
          ≡ ok g')
        × Confirms w m h' l i subscribes sent s
        × (g'.clients.handlers ≡ replace w (after_request w m h' sent s) g.clients.handlers)
        × (g'.daemons ≡ g.daemons)
  unfolding on_frame run_callbacks run_callback route
  subscription_confirmed g id h l frame bytes x q i subscribes found leased read good request t v =
      let h' : GatewayAccessServerHandler w = record h { protocol = q } in
      let hs = g.clients.handlers in
      let same = (found-IsOpen w g.clients id h found v).1 in
      let (sent, s, served, confirms) =
        on_payload-Confirms w m laws sizes h' l bytes x i subscribes leased good request t in
      let h'' = after_request w m h' sent s in
      (
        sent,
        s,
        put w m a h'' (put w m a h' g),
        rw (found, on_frame, read)
            (rw (find-replace w id h h' hs found same, run_callback) (rw served refl)),
        confirms,
        replace-replace w h' h'' hs refl,
        refl,
      )
