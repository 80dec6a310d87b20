-- ===== src/Handler/Filter.antt =====
-- GatewayAccessServerHandler.cpp, `Send`: which packets reach a gateway client.
use snet_gateway.Prelude.{◌≤◌, ◌<◌, ◌≡◌, ◌⊎◌, true, false, some, arith, length}
use snet_gateway.Prelude.Result.{IsOk, ok}
use snet_gateway.External.FrameEndpoint.{FrameEndpoint}
use snet_gateway.External.Message.{SnetServiceMessage}
use snet_gateway.Protocol
use snet_gateway.Protocol.{GatewayAccessFrame}
use snet_gateway.AddressPool.{AddressLease, get_address}
use snet_gateway.PublishSubscribe.{is_service_id_for_me}
use snet_gateway.Handler.{GatewayAccessServerHandler, send, deliver}

module _ (w : FrameEndpoint GatewayAccessFrame) (m : SnetServiceMessage) where
  -- A packet for the client's own address.
  abbrev pub IsUnicast : AddressLease → m.Message → Type 0
  IsUnicast l x = (0x4000 < m.dst_ssa x) × (m.dst_ssa x < 0xFFF0) × (m.dst_ssa x ≡ get_address l)

  -- A packet of a subscribed service for the gateway or for a wildcard address.
  abbrev pub IsSubscribed : GatewayAccessServerHandler w → m.Message → Type 0
  IsSubscribed h x =
      ((m.dst_ssa x ≡ 0x4000) ⊎ (0xFFF0 ≤ m.dst_ssa x))
      × (is_service_id_for_me h.publish_subscribe_service (m.src_service_id x) ≡ true)

  -- Of the packets that are not for sensor nodes, a client gets those for its own address and those
  -- of a subscribed service for the gateway or a wildcard address. Any other packet is refused, and
  -- the handler is left as it was.
  pub send_filter :
      (h : GatewayAccessServerHandler w) (l : AddressLease) (x : m.Message)
      → h.address_lease ≡ some l
      → 0x4000 ≤ m.dst_ssa x
      → (IsUnicast l x ⊎ IsSubscribed h x → send w m h x ≡ deliver w m h x)
        × (¬ (IsUnicast l x ⊎ IsSubscribed h x) → send w m h x ≡ ok (false, h))
  unfolding send
  send_filter h l x e high = ((λ k. ground arith), (λ k. ground arith))

  -- A packet of at most 4093 bytes is refused or handed over, and nothing faults.
  pub send-IsOk :
      (h : GatewayAccessServerHandler w) (l : AddressLease) (x : m.Message)
      → h.address_lease ≡ some l
      → length (m.serialize x) ≤ 4093
      → IsOk (send w m h x)
  unfolding send deliver
  send-IsOk h l x e fits =
      ground (arith, Protocol.Faults.send-IsOk w h.protocol (m.serialize x) false fits)
