-- ===== src/Handler/Payload.antt =====
-- GatewayAccessServerHandler.cpp, `OnPayload`: what a client can bring into the network, and the
-- answers of the gateway's own services.
use snet_gateway.Prelude.{
  ◌≡◌, ◌≢◌, ◌⊎◌, inl, inr, some, arith, Bytes, Option-cases, refl, length, ◌<◌,
}
use snet_gateway.Prelude.Result.{ok, fault, out_of_range}
use snet_gateway.External.FrameEndpoint.{FrameEndpoint}
use snet_gateway.External.Message.{SnetServiceMessage, MessageLaws}
use snet_gateway.Protocol.{GatewayAccessFrame}
use snet_gateway.AddressService.Replies
use snet_gateway.AddressPool.{AddressLease, get_address}
use snet_gateway.Handler.{GatewayAccessServerHandler, on_payload, on_message, to_address_service}

module _ (w : FrameEndpoint GatewayAccessFrame) (m : SnetServiceMessage)
    (laws : MessageLaws m) where
  on_message_routed :
      (h : GatewayAccessServerHandler w) (l : AddressLease) (x y : m.Message)
      (h' : GatewayAccessServerHandler w)
      → h.address_lease ≡ some l
      → on_message w m h x ≡ ok (some y, h')
      → (h' ≡ h)
        × (m.dst_ssa y ≡ m.dst_ssa x)
        × (m.dst_ssa y ≢ 0x3FFC)
        × (m.dst_ssa y ≢ 0x4000)
        × ((m.src_ssa y ≡ 0xFFFE) ⊎ (m.src_ssa y ≡ get_address l))
        × (m.payload y ≡ m.payload x)
  unfolding on_message
  on_message_routed h l x y h' e k = ground (
    arith,
    laws.src_ssa-set_src_ssa (get_address l) x,
    laws.dst_ssa-set_src_ssa (get_address l) x,
    laws.payload-set_src_ssa (get_address l) x,
  )

  -- A packet that a client brings into the network has the client's own address as its source, or
  -- 0xFFFE, whatever the client wrote there. Destination and payload are those that the client
  -- sent, the packet is for neither of the gateway's services, and the handler is left as it was.
  pub on_payload_masquerade :
      (h : GatewayAccessServerHandler w) (l : AddressLease) (bytes : Bytes) (y : m.Message)
      (h' : GatewayAccessServerHandler w)
      → h.address_lease ≡ some l
      → on_payload w m h bytes ≡ ok (some y, h')
      → (x : m.Message) × (m.deserialize bytes ≡ some x)
        × (h' ≡ h)
        × (m.dst_ssa y ≡ m.dst_ssa x)
        × (m.dst_ssa y ≢ 0x3FFC)
        × (m.dst_ssa y ≢ 0x4000)
        × ((m.src_ssa y ≡ 0xFFFE) ⊎ (m.src_ssa y ≡ get_address l))
        × (m.payload y ≡ m.payload x)
  unfolding on_payload
  on_payload_masquerade h l bytes y h' e k = elim (Option-cases (m.deserialize bytes)) [
    | inl bad ↦ absurd (ground arith)
    | inr (x, good) ↦
        let (a, b, c, d, f, g) = on_message_routed h l x y h' e (rw (good, on_payload) at k) in
        (x, good, a, b, c, d, f, g)
  ]

  -- A packet for neither of the services is handed to the routing entity with its source replaced.
  pub on_payload_remapped :
      (h : GatewayAccessServerHandler w) (l : AddressLease) (bytes : Bytes) (x : m.Message)
      → h.address_lease ≡ some l
      → m.deserialize bytes ≡ some x
      → m.dst_ssa x ≢ 0x3FFC
      → m.dst_ssa x ≢ 0x4000
      → m.src_ssa x ≢ 0xFFFE
      → on_payload w m h bytes ≡ ok (some (m.set_src_ssa (get_address l) x), h)
  unfolding on_payload on_message
  on_payload_remapped h l bytes x leased good d1 d2 s1 =
      rw (good, on_payload) (ground (arith, leased))

  -- A request for an address that is too short for a UUID.
  pub on_payload_short :
      (h : GatewayAccessServerHandler w) (bytes : Bytes) (x : m.Message)
      → m.deserialize bytes ≡ some x
      → Replies.IsRequest m laws x
      → length (m.payload x) < 6
      → on_payload w m h bytes ≡ fault out_of_range
  unfolding on_payload on_message to_address_service
  on_payload_short h bytes x good request short =
      rw (good, on_payload, request.dst_ssa)
        (rw (Replies.short_request m laws x h.address_lease request short) refl)
