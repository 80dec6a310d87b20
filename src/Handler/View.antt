-- ===== src/Handler/View.antt =====
-- GatewayAccessServerHandler.cpp: a handler as the client that it serves.
use mathlib.Core.Path.{subst}
use snet_gateway.Prelude.{
  ℕ, ◌≡◌, ◌≢◌, ◌⊎◌, inl, inr, refl, ◌∙◌, Bool, true, false, Option, some, arith, Bytes,
  Option-cases, Bool-cases, ◌==◌, ◌&&◌,
}
use snet_gateway.Prelude.Result.{ok, >>=-eq-ok}
use snet_gateway.External.FrameEndpoint.{FrameEndpoint}
use snet_gateway.External.Message.{SnetServiceMessage}
use snet_gateway.Protocol
use snet_gateway.Protocol.{GatewayAccessFrame, unknown}
use snet_gateway.Protocol.Faults.{send_keeps}
use snet_gateway.AddressPool.{AddressLease}
use snet_gateway.AddressService
use snet_gateway.PublishSubscribe
use snet_gateway.PublishSubscribe.{PublishSubscribeService, is_service_id_for_me}
use snet_gateway.PublishSubscribe.Subscriptions
use snet_gateway.PublishSubscribe.Subscriptions.{
  only_byte, only_byte-payload, wants_after, covers, IsRequest, request_token,
}
use snet_gateway.Handler.{
  GatewayAccessServerHandler, send, deliver, on_payload, on_message, send_back, to_address_service,
  to_publish_subscribe_service, remap,
}
use snet_gateway.Collection.Invariant.{address_of}
use snet_gateway.Spec.{Client, IsAsked, IsTurn}

module _ (w : FrameEndpoint GatewayAccessFrame) where
  abbrev pub view : GatewayAccessServerHandler w → Client
  view h = record {
    id = h.id;
    address = address_of w h;
    mode = h.protocol.framing_mode;
    wants = is_service_id_for_me h.publish_subscribe_service;
  }

  -- Two states of a handler that serve the client alike.
  pub record IsSame (h h' : GatewayAccessServerHandler w) : Type 0 where
    pub id : h'.id ≡ h.id
    pub address_lease : h'.address_lease ≡ h.address_lease
    pub mode : h'.protocol.framing_mode ≡ h.protocol.framing_mode
    pub service : h'.publish_subscribe_service ≡ h.publish_subscribe_service

  pub IsSame-view : (h h' : GatewayAccessServerHandler w) → IsSame h h' → view h' ≡ view h
  IsSame-view h h' s = ground (arith, s.id, s.address_lease, s.mode, s.service)

  pub IsSame-refl : (h : GatewayAccessServerHandler w) → IsSame h h
  IsSame-refl h = record { id = refl; address_lease = refl; mode = refl; service = refl }

  module _ (m : SnetServiceMessage) where
    deliver-IsSame :
        (h h' : GatewayAccessServerHandler w) (x : m.Message) (taken : Bool)
        → deliver w m h x ≡ ok (taken, h')
        → IsSame h h'
    unfolding deliver
    deliver-IsSame h h' x taken e =
        let (s, sent, rest) = >>=-eq-ok (Protocol.send w h.protocol (m.serialize x) false) _ e in
        ground (arith, send_keeps w h.protocol (m.serialize x) false s sent)

    pub send-IsSame :
        (h h' : GatewayAccessServerHandler w) (x : m.Message) (taken : Bool)
        → send w m h x ≡ ok (taken, h')
        → IsSame h h'
    unfolding send
    send-IsSame h h' x taken e = ground (arith, deliver-IsSame h h' x taken, IsSame-refl h)

    send_back-IsSame :
        (h h' : GatewayAccessServerHandler w) (y : m.Message)
        → send_back w m h y ≡ ok h'
        → IsSame h h'
    unfolding send_back
    send_back-IsSame h h' y e =
        let (s, sent, rest) = >>=-eq-ok (Protocol.send w h.protocol (m.serialize y) false) _ e in
        ground (arith, send_keeps w h.protocol (m.serialize y) false s sent)

    to_address_service-IsSame :
        (h h' : GatewayAccessServerHandler w) (x : m.Message)
        → to_address_service w m h x ≡ ok h'
        → IsSame h h'
    unfolding to_address_service
    to_address_service-IsSame h h' x e =
        let (y, answered, rest) =
          >>=-eq-ok (AddressService.process_request m x h.address_lease) _ e in
        ground (arith, send_back-IsSame h h' y, IsSame-refl h)

  -- The client takes at most a turn in which its mode stays, by one of these requests.
  pub record IsServed (R : ℕ → Bool → Type 0) (h h' : GatewayAccessServerHandler w) : Type 0 where
    pub id : h'.id ≡ h.id
    pub address_lease : h'.address_lease ≡ h.address_lease
    pub mode : h'.protocol.framing_mode ≡ h.protocol.framing_mode
    pub wants :
        ((j : ℕ) → (view h').wants j ≡ (view h).wants j) ⊎ IsAsked R (view h).wants (view h').wants

  pub IsSame-IsServed :
      (R : ℕ → Bool → Type 0) (h h' : GatewayAccessServerHandler w) → IsSame h h' → IsServed R h h'
  IsSame-IsServed R h h' s = record {
    id = s.id;
    address_lease = s.address_lease;
    mode = s.mode;
    wants = inl (λ j. cc (s.service));
  }

  pub IsServed-mono :
      (R R' : ℕ → Bool → Type 0) (h h' : GatewayAccessServerHandler w)
      → ((i : ℕ) (b : Bool) → R i b → R' i b)
      → IsServed R h h'
      → IsServed R' h h'
  IsServed-mono R R' h h' f s = record {
    id = s.id;
    address_lease = s.address_lease;
    mode = s.mode;
    wants = elim s.wants [
      | inl same ↦ inl same
      | inr (i, b, r, changed) ↦ inr (i, b, f i b r, changed)
    ];
  }

  module _ (m : SnetServiceMessage) where
    -- The request of a packet: to subscribe to a service, or to unsubscribe.
    abbrev RequestOf : m.Message → ℕ → Bool → Type 0
    RequestOf x i subscribes = IsRequest m x i × (m.token x ≡ request_token subscribes)

    -- So it is for the packet in a payload.
    abbrev pub Asks : Bytes → ℕ → Bool → Type 0
    Asks bytes i subscribes =
        (x : m.Message) × (m.deserialize bytes ≡ some x) × RequestOf x i subscribes

    wants_after-IsAsked :
        (x : m.Message) (s s' : ℕ → Bool)
        → ((j : ℕ) → s' j ≡ wants_after m x j (s j))
        → ((j : ℕ) → s' j ≡ s j) ⊎ IsAsked (RequestOf x) s s'
    wants_after-IsAsked x s s' h = elim (Option-cases (only_byte (m.payload x))) [
      | inl many ↦ inl (λ j. ground (arith, h j))
      | inr (i, named) ↦ elim (Bool-cases (m.dst_ssa x == 0x4000 && m.dst_service_id x == 0xB0)) [
        | inl here ↦
            let request : IsRequest m x i = record {
              dst_ssa = ground (arith, here);
              dst_service_id = ground (arith, here);
              payload = only_byte-payload (m.payload x) i named;
            } in
            elim (Bool-cases (m.token x == 0x10)) [
              | inl subscribes ↦
                  inr (i, true, (request, ground (arith, subscribes)), (λ j. ground (arith, h j)))
              | inr other ↦ elim (Bool-cases (m.token x == 0x20)) [
                | inl unsubscribes ↦
                    inr (
                      i,
                      false,
                      (request, ground (arith, unsubscribes)),
                      (λ j. ground (arith, h j)),
                    )
                | inr no_request ↦ inl (λ j. ground (arith, h j))
              ]
            ]
        | inr elsewhere ↦ inl (λ j. ground (arith, h j))
      ]
    ]

    to_publish_subscribe_service-IsServed :
        (h h' : GatewayAccessServerHandler w) (l : AddressLease) (x : m.Message)
        → h.address_lease ≡ some l
        → to_publish_subscribe_service w m h x ≡ ok h'
        → IsServed (RequestOf x) h h'
    unfolding to_publish_subscribe_service Subscriptions.Served
    to_publish_subscribe_service-IsServed h h' l x leased e =
        let (y, s, answered, changed, reply) =
          Subscriptions.served m x l h.publish_subscribe_service in
        let replied : PublishSubscribe.process_request m x h.address_lease
              h.publish_subscribe_service
            ≡ ok (y, s) =
          rw leased answered in
        let g : GatewayAccessServerHandler w = record h { publish_subscribe_service = s } in
        let kept : IsSame g h' =
          ground (arith, replied, send_back-IsSame m g h' y, IsSame-refl g) in
        let asked = wants_after-IsAsked x _ _ changed in
        record {
          id = kept.id;
          address_lease = kept.address_lease;
          mode = kept.mode;
          wants = rw kept.service asked;
        }

    on_message-IsServed :
        (h h' : GatewayAccessServerHandler w) (l : AddressLease) (x : m.Message)
        (o : Option m.Message)
        → h.address_lease ≡ some l
        → on_message w m h x ≡ ok (o, h')
        → IsServed (RequestOf x) h h'
    unfolding on_message
    on_message-IsServed h h' l x o leased e = elim (Bool-cases (m.dst_ssa x == 0x3FFC)) [
      | inl to_addresses ↦
          let (g, served, rest) =
            >>=-eq-ok (to_address_service w m h x) _ (rw (to_addresses, on_message) at e) in
          subst (IsServed (RequestOf x) h) (ground arith)
            (IsSame-IsServed (RequestOf x) h g (to_address_service-IsSame m h g x served))
      | inr other ↦ elim (Bool-cases (m.dst_ssa x == 0x4000)) [
        | inl to_gateway ↦
            let (g, served, rest) =
              >>=-eq-ok (to_publish_subscribe_service w m h x) _
                (rw (to_gateway, on_message) at (rw (other, on_message) at e)) in
            subst (IsServed (RequestOf x) h) (ground arith)
              (to_publish_subscribe_service-IsServed h g l x leased served)
        | inr beyond ↦
            let (y, mapped, rest) =
              >>=-eq-ok (remap w m h.address_lease x) _
                (rw (beyond, on_message) at (rw (other, on_message) at e)) in
            subst (IsServed (RequestOf x) h) (ground arith)
              (IsSame-IsServed (RequestOf x) h h (IsSame-refl h))
      ]
    ]

    pub on_payload-IsServed :
        (h h' : GatewayAccessServerHandler w) (l : AddressLease) (bytes : Bytes)
        (o : Option m.Message)
        → h.address_lease ≡ some l
        → on_payload w m h bytes ≡ ok (o, h')
        → IsServed (Asks bytes) h h'
    unfolding on_payload
    on_payload-IsServed h h' l bytes o leased e = elim (Option-cases (m.deserialize bytes)) [
      | inl bad ↦
          subst (IsServed (Asks bytes) h) (ground (arith, bad))
            (IsSame-IsServed (Asks bytes) h h (IsSame-refl h))
      | inr (x, good) ↦
          IsServed-mono (RequestOf x) (Asks bytes) h h' (λ i b r. (x, good, r))
            (on_message-IsServed h h' l x o leased (rw (good, on_payload) at e))
    ]

  -- A frame of the protocol, and then at most a service: a turn of the client.
  pub IsServed-IsTurn :
      (R : ℕ → Bool → Type 0) (h h' : GatewayAccessServerHandler w)
      (q : Protocol.GatewayAccessProtocol w)
      → (h.protocol.framing_mode ≢ unknown → q.framing_mode ≡ h.protocol.framing_mode)
      → IsServed R (record h { protocol = q }) h'
      → IsTurn R (view h) (view h')
  IsServed-IsTurn R h h' q chosen s = record {
    id = s.id;
    address = ground (arith, s.address_lease);
    mode = λ known. s.mode ∙ chosen known;
    wants = s.wants;
  }
