-- ===== src/Handler/Keeps.antt =====
-- GatewayAccessServerHandler.cpp: what `Send` and `OnPayload` leave as it is.
use snet_gateway.Prelude.{
  inl, inr, ◌≡◌, ◌≢◌, refl, Bool, false, none, arith, Bytes, Option, Option-cases,
}
use snet_gateway.Prelude.Result.{ok, >>=-eq-ok}
use snet_gateway.External.FrameEndpoint.{FrameEndpoint}
use snet_gateway.External.Message.{SnetServiceMessage}
use snet_gateway.Protocol
use snet_gateway.Protocol.{GatewayAccessFrame, GatewayAccessProtocol}
use snet_gateway.Protocol.Faults.{send_keeps}
use snet_gateway.AddressService
use snet_gateway.PublishSubscribe
use snet_gateway.Handler.{
  GatewayAccessServerHandler, send, deliver, on_message, to_address_service, send_back, on_payload,
  to_publish_subscribe_service,
}

module _ (w : FrameEndpoint GatewayAccessFrame) where
  -- The protocol keeps its callbacks and an endpoint.
  pub record KeepsProtocol (p q : GatewayAccessProtocol w) : Type 0 where
    pub on_data : q.has_on_data ≡ p.has_on_data
    pub on_closed : q.has_on_closed ≡ p.has_on_closed
    pub endpoint : p.frame_endpoint ≢ none → q.frame_endpoint ≢ none

  -- A handler keeps its identity, its place in the collection and its address.
  pub record Keeps (h h' : GatewayAccessServerHandler w) : Type 0 where
    pub id : h'.id ≡ h.id
    pub registered : h'.registered ≡ h.registered
    pub has_collection : h'.has_collection ≡ h.has_collection
    pub address_lease : h'.address_lease ≡ h.address_lease
    pub protocol : KeepsProtocol h.protocol h'.protocol

  pub Keeps-refl : (h : GatewayAccessServerHandler w) → Keeps h h
  Keeps-refl h = record {
    id = refl;
    registered = refl;
    has_collection = refl;
    address_lease = refl;
    protocol = record { on_data = refl; on_closed = refl; endpoint = λ k. k };
  }

  module _ (m : SnetServiceMessage) where
    pub deliver-Keeps :
        (h h' : GatewayAccessServerHandler w) (x : m.Message) (taken : Bool)
        → deliver w m h x ≡ ok (taken, h')
        → Keeps h h'
    unfolding deliver
    deliver-Keeps h h' x taken e =
        let (s, sent, rest) = >>=-eq-ok (Protocol.send w h.protocol (m.serialize x) false) _ e in
        ground (arith, send_keeps w h.protocol (m.serialize x) false s sent)

    pub send-Keeps :
        (h h' : GatewayAccessServerHandler w) (x : m.Message) (taken : Bool)
        → send w m h x ≡ ok (taken, h')
        → Keeps h h'
    unfolding send
    send-Keeps h h' x taken e = ground (arith, deliver-Keeps h h' x taken, Keeps-refl h)

    send_back-Keeps :
        (h h' : GatewayAccessServerHandler w) (y : m.Message)
        → send_back w m h y ≡ ok h'
        → Keeps h h'
    unfolding send_back
    send_back-Keeps h h' y e =
        let (s, sent, rest) = >>=-eq-ok (Protocol.send w h.protocol (m.serialize y) false) _ e in
        ground (arith, send_keeps w h.protocol (m.serialize y) false s sent)

    to_address_service-Keeps :
        (h h' : GatewayAccessServerHandler w) (x : m.Message)
        → to_address_service w m h x ≡ ok h'
        → Keeps h h'
    unfolding to_address_service
    to_address_service-Keeps h h' x e =
        let (y, answered, rest) =
          >>=-eq-ok (AddressService.process_request m x h.address_lease) _ e in
        ground (arith, send_back-Keeps h h' y, Keeps-refl h)

    to_publish_subscribe_service-Keeps :
        (h h' : GatewayAccessServerHandler w) (x : m.Message)
        → to_publish_subscribe_service w m h x ≡ ok h'
        → Keeps h h'
    unfolding to_publish_subscribe_service
    to_publish_subscribe_service-Keeps h h' x e =
        let ((y, s), answered, rest) =
          >>=-eq-ok
            (PublishSubscribe.process_request m x h.address_lease h.publish_subscribe_service) _
            e in
        let g : GatewayAccessServerHandler w = record h { publish_subscribe_service = s } in
        let kept : Keeps g h' = ground (arith, send_back-Keeps g h' y, Keeps-refl g) in
        ground (arith, kept)

    on_message-Keeps :
        (h h' : GatewayAccessServerHandler w) (x : m.Message) (o : Option m.Message)
        → on_message w m h x ≡ ok (o, h')
        → Keeps h h'
    unfolding on_message
    on_message-Keeps h h' x o e = ground (
      arith,
      to_address_service-Keeps h h' x,
      to_publish_subscribe_service-Keeps h h' x,
      Keeps-refl h,
    )

    pub on_payload-Keeps :
        (h h' : GatewayAccessServerHandler w) (bytes : Bytes) (o : Option m.Message)
        → on_payload w m h bytes ≡ ok (o, h')
        → Keeps h h'
    unfolding on_payload
    on_payload-Keeps h h' bytes o e = elim (Option-cases (m.deserialize bytes)) [
      | inl bad ↦ ground (arith, Keeps-refl h)
      | inr (x, good) ↦ on_message-Keeps h h' x o (rw (good, on_payload) at e)
    ]
