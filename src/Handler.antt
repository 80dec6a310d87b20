-- ===== src/Handler.antt =====
-- GatewayAccessServerHandler.cpp: one connected gateway client. The calls of the handler on the
-- collection and on the routing entity are values that the collection carries out: each is the last
-- thing that its operation does. `m_RoutingEntity` is set by the constructor and never reset.
pub mod Keeps
pub mod Filter
pub mod Overload
pub mod Payload
pub mod Totality
pub mod Subscribing
pub mod Assigning
pub mod View
use snet_gateway.Prelude.{
  ℕ, Bool, true, false, not, ◌&&◌, ◌||◌, Option, none, some, Bytes, ltb, leb, ◌==◌, if◌then◌else◌,
}
use snet_gateway.Prelude.Result.{Result, ok, null_pointer, ◌>>=◌, ◌>>◌, check, or_fault}
use snet_gateway.External.FrameEndpoint.{FrameEndpoint}
use snet_gateway.External.Message.{SnetServiceMessage}
use snet_gateway.Protocol
use snet_gateway.Protocol.{GatewayAccessFrame, GatewayAccessProtocol}
use snet_gateway.AddressPool.{AddressLease, get_address}
use snet_gateway.AddressService
use snet_gateway.PublishSubscribe
use snet_gateway.PublishSubscribe.{PublishSubscribeService, is_service_id_for_me}

abbrev is_some {ℓ} : {A : Type ℓ} → Option A → Bool
is_some none = false
is_some (some a) = true

module _ (w : FrameEndpoint GatewayAccessFrame) where
  -- `id` is the identity of the object, by which the collection finds it.
  pub record GatewayAccessServerHandler : Type 0 where
    pub id : ℕ
    pub has_collection : Bool
    pub address_lease : Option AddressLease
    pub publish_subscribe_service : PublishSubscribeService
    pub protocol : GatewayAccessProtocol w
    pub registered : Bool

  -- The constructor, with the pointers that it checks.
  unfoldable pub construct :
      ℕ → Bool → Bool → Option AddressLease → w.Endpoint → Result GatewayAccessServerHandler
  construct id has_collection has_routing address_lease e = do
    check has_collection
    check has_routing
    check (is_some address_lease)
    ok (record {
      id = id;
      has_collection = has_collection;
      address_lease = address_lease;
      publish_subscribe_service = PublishSubscribe.construct;
      protocol =
          Protocol.set_on_closed_callback w true
            (Protocol.set_on_data_callback w true (Protocol.construct w e));
      registered = false;
    })

  -- `Start`; the handler that it gives is the one that stands in the collection.
  unfoldable pub start : GatewayAccessServerHandler → Result GatewayAccessServerHandler
  start h = do
    check (not h.registered)
    or_fault null_pointer (if h.has_collection then some tt else none)
    p ← Protocol.start w h.protocol
    ok (record h { registered = true; protocol = p })

  -- `Close`, with the lease that it drops, if the handler was registered.
  unfoldable pub close :
      GatewayAccessServerHandler → Result (Option AddressLease × GatewayAccessServerHandler)
  close h =
      if h.registered
      then (do
        check (is_some h.address_lease)
        or_fault null_pointer (if h.has_collection then some tt else none)
        ok (
          h.address_lease,
          record h { registered = false; address_lease = none; has_collection = false },
        ))
      else ok (none, h)

  -- The first test of `Send`; the lease is looked at only if the address is a client's.
  is_for_other : ℕ → Option AddressLease → Result Bool
  is_for_other dst address_lease =
      if ltb 0x4000 dst && ltb dst 0xFFF0
      then (do l ← or_fault null_pointer address_lease; ok (not (dst == get_address l)))
      else ok false

  module _ (m : SnetServiceMessage) where
    open m use {Message, src_ssa, dst_ssa, src_service_id, set_src_ssa, serialize, deserialize}

    -- The second test of `Send`.
    is_unsubscribed : PublishSubscribeService → Message → Bool
    is_unsubscribed s x =
        (dst_ssa x == 0x4000 || leb 0xFFF0 (dst_ssa x))
        && not (is_service_id_for_me s (src_service_id x))

    unfoldable pub deliver :
        GatewayAccessServerHandler → Message → Result (Bool × GatewayAccessServerHandler)
    deliver h x = do
      sent ← Protocol.send w h.protocol (serialize x) false
      ok (sent.accepted, record h { protocol = sent.protocol })

    -- `Send`
    unfoldable pub send :
        GatewayAccessServerHandler → Message → Result (Bool × GatewayAccessServerHandler)
    unfolding is_for_other is_unsubscribed
    send h x = do
      other ← is_for_other (dst_ssa x) h.address_lease
      if other
          then ok (false, h)
          else if is_unsubscribed h.publish_subscribe_service x
          then ok (false, h)
          else deliver h x

    -- A reply to the client itself, whose result is not looked at.
    pub send_back : GatewayAccessServerHandler → Message → Result GatewayAccessServerHandler
    send_back h y = do
      sent ← Protocol.send w h.protocol (serialize y) false
      ok (record h { protocol = sent.protocol })

    to_address_service : GatewayAccessServerHandler → Message → Result GatewayAccessServerHandler
    to_address_service h x = do
      y ← AddressService.process_request m x h.address_lease
      if src_service_id y == 0xAE then send_back h y else ok h

    to_publish_subscribe_service :
        GatewayAccessServerHandler → Message → Result GatewayAccessServerHandler
    to_publish_subscribe_service h x = do
      (y, s) ← PublishSubscribe.process_request m x h.address_lease h.publish_subscribe_service
      if src_service_id y == 0xB0
          then send_back (record h { publish_subscribe_service = s }) y
          else ok (record h { publish_subscribe_service = s })

    -- The source address of a packet becomes the client's, but for 0xFFFE.
    remap : Option AddressLease → Message → Result Message
    remap address_lease x =
        if src_ssa x == 0xFFFE
        then ok x
        else (do l ← or_fault null_pointer address_lease; ok (set_src_ssa (get_address l) x))

    on_message :
        GatewayAccessServerHandler → Message → Result (Option Message × GatewayAccessServerHandler)
    unfolding to_address_service to_publish_subscribe_service remap
    on_message h x =
        if dst_ssa x == 0x3FFC
        then (do h' ← to_address_service h x; ok (none, h'))
        else if dst_ssa x == 0x4000
        then (do h' ← to_publish_subscribe_service h x; ok (none, h'))
        else (do y ← remap h.address_lease x; ok (some y, h))

    -- `OnPayload`, with the packet that it hands to the routing entity, as one of
    -- `COMPONENT_GWCLIENTS`.
    unfoldable pub on_payload :
        GatewayAccessServerHandler → Bytes → Result (Option Message × GatewayAccessServerHandler)
    unfolding on_message
    on_payload h bytes = elim (deserialize bytes) [ none ↦ ok (none, h) | some x ↦ on_message h x ]
