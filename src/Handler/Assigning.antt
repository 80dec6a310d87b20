-- ===== src/Handler/Assigning.antt =====
-- GatewayAccessServerHandler.cpp, `OnPayload`: a request to the address assignment service.
use snet_gateway.Prelude.{◌≤◌, ◌≡◌, refl, none, some, arith, Bytes, length, false}
use snet_gateway.Prelude.Result.{ok}
use snet_gateway.External.FrameEndpoint.{FrameEndpoint}
use snet_gateway.External.Message.{SnetServiceMessage, MessageLaws, MessageSizes}
use snet_gateway.AddressService
use snet_gateway.AddressService.Replies
use snet_gateway.AddressPool.{AddressLease, get_address}
use snet_gateway.Protocol
use snet_gateway.Protocol.{GatewayAccessFrame, Sent}
use snet_gateway.Handler.{
  GatewayAccessServerHandler, on_payload, on_message, to_address_service, send_back,
}

module _ (w : FrameEndpoint GatewayAccessFrame) (m : SnetServiceMessage) (laws : MessageLaws m)
    (sizes : MessageSizes m) where
  -- The reply to a request of a client, which is short, and what the handler does with it.
  pub record Assigns (h : GatewayAccessServerHandler w) (l : AddressLease) (bytes : Bytes)
      (x : m.Message) : Type 0 where
    pub answer : m.Message
    pub is_reply : Replies.IsReply m laws x (get_address l) answer
    pub fits : length (m.serialize answer) ≤ 4093
    pub served :
        (sent : Sent w)
        → Protocol.send w h.protocol (m.serialize answer) false ≡ ok sent
        → on_payload w m h bytes ≡ ok (none, record h { protocol = sent.protocol })

  pub on_payload-Assigns :
      (h : GatewayAccessServerHandler w) (l : AddressLease) (bytes : Bytes) (x : m.Message)
      → h.address_lease ≡ some l
      → m.deserialize bytes ≡ some x
      → Replies.IsRequest m laws x
      → 6 ≤ length (m.payload x)
      → Assigns h l bytes x
  unfolding on_payload on_message to_address_service send_back
  on_payload-Assigns h l bytes x leased good request long =
      let (y, answered, is_reply) = Replies.request_answered m laws x l request long in
      let replied : AddressService.process_request m x h.address_lease ≡ ok y =
        rw leased answered in
      record {
        answer = y;
        is_reply = is_reply;
        fits = omega (
          arith,
          sizes.length-serialize y,
          sizes.header_fits,
          Replies.IsReply-length m laws x (get_address l) y long is_reply,
        );
        served = λ sent e.
            rw (good, on_payload, request.dst_ssa)
              (rw (replied, is_reply.src_service_id) (rw e refl));
      }
