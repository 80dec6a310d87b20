-- ===== src/Handler/Overload.antt =====
-- GatewayAccessServerHandler.cpp, `Send`: the packets that are too long for a client.
use snet_gateway.Prelude.{
  ◌<◌, ◌≤◌, ◌≡◌, ◌≢◌, ◌⊎◌, false, some, none, arith, length, refl, Option-cases, inl, inr,
}
use snet_gateway.Prelude.Result.{Fault, fault, assertion_failed}
use snet_gateway.External.FrameEndpoint.{FrameEndpoint}
use snet_gateway.External.Message.{SnetServiceMessage}
use snet_gateway.AddressPool.{AddressLease}
use snet_gateway.Frames.Escaped
use snet_gateway.Frames.LengthBased
use snet_gateway.Protocol
use snet_gateway.Protocol.{GatewayAccessFrame, unknown}
use snet_gateway.Protocol.Faults
use snet_gateway.Protocol.Faults.{capacity}
use snet_gateway.Handler.{GatewayAccessServerHandler, send, deliver, is_for_other, is_unsubscribed}
use snet_gateway.Handler.Filter.{IsUnicast, IsSubscribed, send_filter}

module _ (w : FrameEndpoint GatewayAccessFrame) (m : SnetServiceMessage) where
  -- A client that wants a packet, but that has chosen a mode in which it does not fit.
  pub record IsOverloaded (x : m.Message) (h : GatewayAccessServerHandler w) : Type 0 where
    pub wants :
        (l : AddressLease) → h.address_lease ≡ some l → IsUnicast w m l x ⊎ IsSubscribed w m h x
    pub chosen : h.protocol.framing_mode ≢ unknown
    pub too_long : capacity h.protocol.framing_mode < length (m.serialize x)

  pub overloaded-fault :
      (h : GatewayAccessServerHandler w) (l : AddressLease) (x : m.Message)
      → h.address_lease ≡ some l
      → h.protocol.frame_endpoint ≢ none
      → 0x4000 ≤ m.dst_ssa x
      → IsOverloaded x h
      → send w m h x ≡ fault assertion_failed
  unfolding deliver
  overloaded-fault h l x leased there high o = elim (Option-cases h.protocol.frame_endpoint) [
    | inl closed ↦ absurd (there closed)
    | inr (e, endpoint) ↦
        let sent = (send_filter w m h l x leased high).0 (o.wants l leased) in
        let fails =
          (Faults.send-capacity w h.protocol e (m.serialize x) false o.chosen endpoint).1
            o.too_long in
        rw sent (rw fails refl)
  ]

  pub fault-IsOverloaded :
      (h : GatewayAccessServerHandler w) (l : AddressLease) (x : m.Message) (e : Fault)
      → h.address_lease ≡ some l
      → 0x4000 ≤ m.dst_ssa x
      → send w m h x ≡ fault e
      → IsOverloaded x h × (e ≡ assertion_failed)
  unfolding send deliver Protocol.send Escaped.create LengthBased.create is_for_other
      is_unsubscribed
  fault-IsOverloaded h l x e leased high faults = (
    record {
      wants = λ l' leased'. ground arith;
      chosen = λ k. ground arith;
      too_long = ground arith;
    },
    ground arith,
  )
