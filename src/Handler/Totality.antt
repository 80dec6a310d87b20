-- ===== src/Handler/Totality.antt =====
-- GatewayAccessServerHandler.cpp, `OnPayload`: no payload makes a registered handler fault, but for a
-- request for an address that is too short.
use mathlib.Core.Path.{subst}
use snet_gateway.Prelude.{
  ℕ, ◌≡◌, ◌≤◌, ◌+◌, Option, some, none, arith, Bytes, length, Option-cases, Bool-cases, inl, inr,
  ◌==◌, ==→eq, refl, false,
}
use snet_gateway.Prelude.Result.{ok, IsOk-value}
use snet_gateway.External.FrameEndpoint.{FrameEndpoint}
use snet_gateway.External.Message.{SnetServiceMessage, MessageLaws, MessageSizes}
use snet_gateway.Protocol
use snet_gateway.Protocol.{GatewayAccessFrame}
use snet_gateway.AddressPool.{AddressLease, get_address}
use snet_gateway.AddressService
use snet_gateway.AddressService.Replies
use snet_gateway.PublishSubscribe
use snet_gateway.PublishSubscribe.Subscriptions
use snet_gateway.Handler.{
  GatewayAccessServerHandler, on_payload, on_message, send_back, to_address_service,
  to_publish_subscribe_service, remap,
}

module _ (w : FrameEndpoint GatewayAccessFrame) (m : SnetServiceMessage) (laws : MessageLaws m)
    (sizes : MessageSizes m) where
  -- A request for an address has the six bytes of its UUID.
  abbrev pub HasUuid : m.Message → Type 0
  HasUuid x = AddressService.Replies.IsRequest m laws x → 6 ≤ length (m.payload x)

  send_back-IsOk :
      (h : GatewayAccessServerHandler w) (y : m.Message)
      → length (m.serialize y) ≤ 4093
      → (h' : GatewayAccessServerHandler w) × (send_back w m h y ≡ ok h')
  unfolding send_back
  send_back-IsOk h y fits =
      let (sent, e) =
        IsOk-value _ (Protocol.Faults.send-IsOk w h.protocol (m.serialize y) false fits) in
      (record h { protocol = sent.protocol }, rw e refl)

  to_address_service-IsOk :
      (h : GatewayAccessServerHandler w) (l : AddressLease) (x : m.Message)
      → h.address_lease ≡ some l
      → HasUuid x
      → (h' : GatewayAccessServerHandler w) × (to_address_service w m h x ≡ ok h')
  unfolding to_address_service
  to_address_service-IsOk h l x leased long =
      let (y, answered, size) = AddressService.Replies.process_request-IsOk m laws x l long in
      let replied : AddressService.process_request m x h.address_lease ≡ ok y =
        rw leased answered in
      elim (Bool-cases (m.src_service_id y == 0xAE)) [
        | inl is_reply ↦
            let (h', sent) = send_back-IsOk h y (
              omega
                (arith, sizes.length-serialize y, sizes.header_fits, size (==→eq _ _ is_reply))) in
            (h', rw (replied, is_reply) sent)
        | inr nothing ↦ (h, rw (replied, nothing) refl)
      ]

  to_publish_subscribe_service-IsOk :
      (h : GatewayAccessServerHandler w) (l : AddressLease) (x : m.Message)
      → h.address_lease ≡ some l
      → (h' : GatewayAccessServerHandler w) × (to_publish_subscribe_service w m h x ≡ ok h')
  unfolding to_publish_subscribe_service
  to_publish_subscribe_service-IsOk h l x leased =
      let (y, s, answered, size) =
        PublishSubscribe.Subscriptions.process_request-IsOk m laws x l
          h.publish_subscribe_service in
      let replied : PublishSubscribe.process_request m x h.address_lease h.publish_subscribe_service
          ≡ ok (y, s) =
        rw leased answered in
      let g : GatewayAccessServerHandler w = record h { publish_subscribe_service = s } in
      elim (Bool-cases (m.src_service_id y == 0xB0)) [
        | inl is_reply ↦
            let (h', sent) = send_back-IsOk g y (
              omega
                (arith, sizes.length-serialize y, sizes.header_fits, size (==→eq _ _ is_reply))) in
            (h', rw (replied, is_reply) sent)
        | inr nothing ↦ (g, rw (replied, nothing) refl)
      ]

  -- What `OnPayload` needs of the bytes of a client.
  pub record IsBenign (bytes : Bytes) : Type 0 where
    pub fits : length bytes ≤ 4093
    pub has_uuid : (x : m.Message) → m.deserialize bytes ≡ some x → HasUuid x

  remap-IsOk :
      (l : AddressLease) (x : m.Message)
      → (y : m.Message) × (remap w m (some l) x ≡ ok y)
        × (length (m.serialize y) ≤ sizes.header_size + length (m.payload x))
  unfolding remap
  remap-IsOk l x = elim (Bool-cases (m.src_ssa x == 0xFFFE)) [
    | inl wired ↦ (x, rw wired refl, sizes.length-serialize x)
    | inr mapped ↦ (
      m.set_src_ssa (get_address l) x,
      rw mapped refl,
      rw (laws.payload-set_src_ssa (get_address l) x) at
          (sizes.length-serialize (m.set_src_ssa (get_address l) x)),
    )
  ]

  -- What comes of a packet: none is handed on, or one that is not longer.
  abbrev Bounded : ℕ → Option m.Message → Type 0
  Bounded n none = Unit
  Bounded n (some y) = length (m.serialize y) ≤ n

  on_message-IsOk :
      (h : GatewayAccessServerHandler w) (l : AddressLease) (x : m.Message)
      → h.address_lease ≡ some l
      → HasUuid x
      → (o : Option m.Message) × (h' : GatewayAccessServerHandler w) × (on_message w m h x
          ≡ ok (o, h'))
        × Bounded (sizes.header_size + length (m.payload x)) o
  unfolding on_message
  on_message-IsOk h l x leased long = elim (Bool-cases (m.dst_ssa x == 0x3FFC)) [
    | inl to_addresses ↦
        let (h', served) = to_address_service-IsOk h l x leased long in
        (none, h', rw (to_addresses, served) refl, tt)
    | inr other ↦ elim (Bool-cases (m.dst_ssa x == 0x4000)) [
      | inl to_gateway ↦
          let (h', served) = to_publish_subscribe_service-IsOk h l x leased in
          (none, h', rw (other, to_gateway, served) refl, tt)
      | inr beyond ↦
          let (y, mapped, bound) = remap-IsOk l x in
          let mapped' : remap w m h.address_lease x ≡ ok y = rw leased mapped in
          (some y, h, rw (other, beyond, mapped') refl, bound)
    ]
  ]

  -- A benign payload is handled, and a packet that it brings into the network is not longer.
  pub on_payload-IsOk :
      (h : GatewayAccessServerHandler w) (l : AddressLease) (bytes : Bytes)
      → h.address_lease ≡ some l
      → IsBenign bytes
      → (o : Option m.Message) × (h' : GatewayAccessServerHandler w) × (on_payload w m h bytes
          ≡ ok (o, h'))
        × ((y : m.Message) → o ≡ some y → length (m.serialize y) ≤ 4093)
  unfolding on_payload
  on_payload-IsOk h l bytes leased b = elim (Option-cases (m.deserialize bytes)) [
    | inl bad ↦ (none, h, rw (bad, on_payload) refl, (λ y e. cc))
    | inr (x, good) ↦
        let (o, h', handled, bound) = on_message-IsOk h l x leased (b.has_uuid x good) in
        (
          o,
          h',
          rw (good, on_payload) handled,
          (λ y e. omega (
            arith,
            b.fits,
            sizes.length-deserialize bytes x good,
            subst (Bounded (sizes.header_size + length (m.payload x))) e bound,
          )),
        )
  ]
