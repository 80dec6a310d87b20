-- ===== src/Handler/Subscribing.antt =====
-- GatewayAccessServerHandler.cpp, `OnPayload`: a request to the publish-subscribe service.
use snet_gateway.Prelude.{
  ℕ, ◌≤◌, ◌≡◌, refl, ap, Bool, false, none, some, arith, Bytes, length, if◌then◌else◌,
}
use snet_gateway.Prelude.Result.{ok, IsOk-value}
use snet_gateway.External.FrameEndpoint.{FrameEndpoint}
use snet_gateway.External.Message.{SnetServiceMessage, MessageLaws, MessageSizes}
use snet_gateway.AddressPool.{AddressLease, get_address}
use snet_gateway.PublishSubscribe
use snet_gateway.PublishSubscribe.{PublishSubscribeService, is_service_id_for_me}
use snet_gateway.PublishSubscribe.Subscriptions
use snet_gateway.PublishSubscribe.Subscriptions.{
  IsRequest, IsConfirmation, request_token, reply_token, covers,
}
use snet_gateway.Protocol
use snet_gateway.Protocol.{GatewayAccessFrame, GatewayAccessProtocol, Sent, data_callback}
use snet_gateway.Protocol.Faults
use snet_gateway.Handler.{
  GatewayAccessServerHandler, on_payload, on_message, to_publish_subscribe_service, send_back,
}

module _ (w : FrameEndpoint GatewayAccessFrame) (m : SnetServiceMessage) where
  -- A handler that has served a request.
  abbrev pub after_request :
      GatewayAccessServerHandler w → Sent w → PublishSubscribeService → GatewayAccessServerHandler w
  after_request h sent s = record h { protocol = sent.protocol; publish_subscribe_service = s }

  -- What a request to subscribe or to unsubscribe does to the handler of a client.
  abbrev pub Confirms :
      GatewayAccessServerHandler w
      → AddressLease
      → ℕ
      → Bool
      → Sent w
      → PublishSubscribeService
      → Type 0
  Confirms h l i subscribes sent s =
      ((y : m.Message) × (Protocol.send w h.protocol (m.serialize y) false ≡ ok sent)
        × IsConfirmation m y (reply_token subscribes) i (get_address l))
      × ((j : ℕ)
          → is_service_id_for_me s j ≡ (
              if covers i j
              then subscribes
              else is_service_id_for_me h.publish_subscribe_service j))

  module _ (laws : MessageLaws m) (sizes : MessageSizes m) where
    pub on_payload-Confirms :
        (h : GatewayAccessServerHandler w) (l : AddressLease) (bytes : Bytes) (x : m.Message)
        (i : ℕ) (subscribes : Bool)
        → h.address_lease ≡ some l
        → m.deserialize bytes ≡ some x
        → IsRequest m x i
        → m.token x ≡ request_token subscribes
        → (sent : Sent w) × (s : PublishSubscribeService) × (on_payload w m h bytes
            ≡ ok (none, after_request h sent s))
          × Confirms h l i subscribes sent s
    unfolding on_payload on_message to_publish_subscribe_service send_back
    on_payload-Confirms h l bytes x i subscribes leased good q t =
        let (y, s, answered, c, changed) =
          Subscriptions.request_confirmed m laws x i l h.publish_subscribe_service subscribes q t in
        let replied : PublishSubscribe.process_request m x h.address_lease
              h.publish_subscribe_service
            ≡ ok (y, s) =
          rw leased answered in
        let fits : length (m.serialize y) ≤ 4093 =
          omega (arith, sizes.length-serialize y, sizes.header_fits, ap length c.payload) in
        let (sent, e) = IsOk-value _ (Faults.send-IsOk w h.protocol (m.serialize y) false fits) in
        (
          sent,
          s,
          rw (good, on_payload, q.dst_ssa) (rw (replied, c.src_service_id) (rw e refl)),
          ((y, e, c), changed),
        )
