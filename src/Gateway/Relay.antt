-- ===== src/Gateway/Relay.antt =====
-- The gateway as a whole: the way of a packet from a gateway client to the HDLC daemons.
use snet_gateway.Prelude.{
  ℕ, ◌<◌, ◌≡◌, ◌≢◌, refl, Bool, true, some, List, [], ◌∷◌, arith, Bytes, map, if◌then◌else◌, false,
}
use snet_gateway.Prelude.Result.{Result, ok, fault}
use snet_gateway.External.FrameEndpoint.{FrameEndpoint}
use snet_gateway.External.Message.{SnetServiceMessage, MessageLaws}
use snet_gateway.External.HdlcdClient.{HdlcdAccess}
use snet_gateway.AddressPool.{AddressLease, get_address}
use snet_gateway.Protocol
use snet_gateway.Protocol.{
  GatewayAccessFrame, GatewayAccessProtocol, length_prefixed, escaping, data_callback,
}
use snet_gateway.Protocol.Delivery
use snet_gateway.Protocol.Delivery.{escaped_frame}
use snet_gateway.CommandResponse.{frame_0301}
use snet_gateway.Handler
use snet_gateway.Handler.{GatewayAccessServerHandler}
use snet_gateway.Collection.Identity.{find, replace, find-replace, replace-replace}
use snet_gateway.Routing
use snet_gateway.Routing.{gwclients, to_hdlcd}
use snet_gateway.Hdlcd.{HdlcdClientHandler}
use snet_gateway.HdlcdCollection.Sending.{pointers, hdlcd_handed_all, handed}
use snet_gateway.Gateway.{Gateway, on_frame, run_callbacks, run_callback, route, carry_out, put}

module _ (w : FrameEndpoint GatewayAccessFrame) (m : SnetServiceMessage) (a : HdlcdAccess)
    (laws : MessageLaws m) where
  -- The packet that the HDLC daemons get, and the handlers after it is sent to each of them.
  abbrev pub relayed : Bool → AddressLease → m.Message → m.Message
  relayed reliable l x =
      let y = m.set_src_ssa (get_address l) x in if reliable then m.set_on_air_arq true y else y

  abbrev pub sent_to_each : List (HdlcdClientHandler a) → m.Message → List (HdlcdClientHandler a)
  sent_to_each hs y = map (handed a (m.serialize y) true) hs

  route-to_each :
      (g : Gateway w m a) (hs : List (HdlcdClientHandler a)) (l : AddressLease) (x : m.Message)
      → g.daemons.handlers ≡ pointers a hs
      → g.routing.has_hdlcd ≡ true
      → m.dst_ssa x < 0x3FFC
      → route w m a (some (m.set_src_ssa (get_address l) x)) gwclients g
        ≡ ok (record g {
          daemons = record g.daemons {
            handlers = pointers a (sent_to_each hs (relayed g.routing.reliable l x));
          };
        })
  unfolding route carry_out
  route-to_each g hs l x all_set has_hdlcd low =
      let y = m.set_src_ssa (get_address l) x in
      let to =
        (Routing.Table.perform_routing-hdlcd_iff gwclients (m.src_ssa y) (m.dst_ssa y)).1
          (ground (arith, laws.dst_ssa-set_src_ssa (get_address l) x)) in
      let f = (Routing.Table.route_snet_packet-forward m g.routing y gwclients).0 to has_hdlcd in
      rw f (
        rw
          (hdlcd_handed_all a g.daemons hs (m.serialize (relayed g.routing.reliable l x)) true
            all_set)
          refl)

  pub callback_runs :
      (id : ℕ) (g : Gateway w m a) (r : Result (Gateway w m a)) (h : GatewayAccessServerHandler w)
      (bytes : Bytes) (y : m.Message)
      → find w id g.clients.handlers ≡ some h
      → Handler.on_payload w m h bytes ≡ ok (some y, h)
      → route w m a (some y) gwclients (put w m a h g) ≡ r
      → run_callbacks w m a id (data_callback bytes ∷ []) g ≡ r
  unfolding run_callbacks run_callback
  callback_runs id g (ok g') h bytes y found served routed =
      rw (found, run_callback) (rw served (rw routed refl))
  callback_runs id g (fault e) h bytes y found served routed =
      rw (found, run_callback) (rw served (rw routed refl))

  -- A frame that delivers a packet for a sensor node.
  pub relay :
      (g : Gateway w m a) (id : ℕ) (h : GatewayAccessServerHandler w) (l : AddressLease)
      (hs : List (HdlcdClientHandler a)) (frame : GatewayAccessFrame) (bytes : Bytes)
      (x : m.Message) (q : GatewayAccessProtocol w)
      → find w id g.clients.handlers ≡ some h
      → h.id ≡ id
      → h.address_lease ≡ some l
      → Protocol.on_frame w h.protocol frame ≡ ok (data_callback bytes ∷ [], q)
      → g.daemons.handlers ≡ pointers a hs
      → g.routing.has_hdlcd ≡ true
      → m.deserialize bytes ≡ some x
      → m.dst_ssa x < 0x3FFC
      → m.src_ssa x ≢ 0xFFFE
      → let h' = record h { protocol = q } in
        (g' : Gateway w m a) × (on_frame w m a id frame g ≡ ok g')
        × (g'.daemons.handlers ≡ pointers a (sent_to_each hs (relayed g.routing.reliable l x)))
        × (g'.clients.handlers ≡ replace w h' g.clients.handlers)
  unfolding on_frame
  relay g id h l hs frame bytes x q found same leased read all_set has_hdlcd good low honest =
      let h' : GatewayAccessServerHandler w = record h { protocol = q } in
      let found' = find-replace w id h h' g.clients.handlers found same in
      let served =
        Handler.Payload.on_payload_remapped w m laws h' l bytes x leased good (λ k. omega arith)
          (λ k. omega arith) honest in
      let g1 = put w m a h' (put w m a h' g) in
      let routed = route-to_each g1 hs l x all_set has_hdlcd low in
      (
        record g1 {
          daemons = record g1.daemons {
            handlers = pointers a (sent_to_each hs (relayed g.routing.reliable l x));
          };
        },
        rw (found, on_frame, read)
            (callback_runs id (put w m a h' g) _ h' bytes _ found' served routed),
        refl,
        replace-replace w h' h' g.clients.handlers refl,
      )

  -- A packet for a sensor node (an address below 0x3FFC) that a connected client sends in a
  -- length-based frame, in the length-based mode or as its first frame, arrives at every HDLC
  -- daemon, serialized, with the client's own address as its source whatever the client wrote there
  -- (but for 0xFFFE), and with the OnAirARQ flag if the gateway is started as reliable. No daemon
  -- is skipped, the event does not fault, and the only client that changes is the sender, whose
  -- framing mode is fixed.
  pub packet_relayed :
      (g : Gateway w m a) (id : ℕ) (h : GatewayAccessServerHandler w) (l : AddressLease)
      (hs : List (HdlcdClientHandler a)) (bytes : Bytes) (x : m.Message) (e : w.Endpoint)
      → find w id g.clients.handlers ≡ some h
      → h.id ≡ id
      → h.address_lease ≡ some l
      → h.protocol.framing_mode ≢ escaping
      → h.protocol.has_on_data ≡ true
      → h.protocol.frame_endpoint ≡ some e
      → g.daemons.handlers ≡ pointers a hs
      → g.routing.has_hdlcd ≡ true
      → m.deserialize bytes ≡ some x
      → m.dst_ssa x < 0x3FFC
      → m.src_ssa x ≢ 0xFFFE
      → let h' = record h { protocol = record h.protocol { framing_mode = length_prefixed } } in
        (g' : Gateway w m a) × (on_frame w m a id (Protocol.Delivery.length_frame bytes) g ≡ ok g')
        × (g'.daemons.handlers ≡ pointers a (sent_to_each hs (relayed g.routing.reliable l x)))
        × (g'.clients.handlers ≡ replace w h' g.clients.handlers)
  packet_relayed g id h l hs bytes x e found same leased mode called open_at all_set has_hdlcd good
        low honest =
      relay g id h l hs (Protocol.Delivery.length_frame bytes) bytes x _ found same leased
        (Protocol.Delivery.on_frame_length w h.protocol e bytes mode called) all_set has_hdlcd good
        low honest

  -- A packet for a sensor node that a connected client sends behind the request identifier 0x0300
  -- in an escaped frame, in the escaping-based mode or as its first frame, arrives at every HDLC
  -- daemon, serialized, with the client's own address as its source (but for 0xFFFE), and with the
  -- OnAirARQ flag if the gateway is started as reliable. The event does not fault, and the only
  -- client that changes is the sender: its framing mode is fixed, and its endpoint is handed the
  -- acknowledgment 0x0301.
  pub escaped_relayed :
      (g : Gateway w m a) (id : ℕ) (h : GatewayAccessServerHandler w) (l : AddressLease)
      (hs : List (HdlcdClientHandler a)) (bytes : Bytes) (x : m.Message) (e : w.Endpoint)
      → find w id g.clients.handlers ≡ some h
      → h.id ≡ id
      → h.address_lease ≡ some l
      → h.protocol.framing_mode ≢ length_prefixed
      → h.protocol.has_on_data ≡ true
      → h.protocol.frame_endpoint ≡ some e
      → g.daemons.handlers ≡ pointers a hs
      → g.routing.has_hdlcd ≡ true
      → m.deserialize bytes ≡ some x
      → m.dst_ssa x < 0x3FFC
      → m.src_ssa x ≢ 0xFFFE
      → let h' = record h {
        protocol = record h.protocol {
          framing_mode = escaping;
          frame_endpoint = some (w.send_frame e (escaped_frame (frame_0301.serialize)) false).1;
        };
      } in
        (g' : Gateway w m a) × (on_frame w m a id (escaped_frame (0x03 ∷ 0x00 ∷ bytes)) g ≡ ok g')
        × (g'.daemons.handlers ≡ pointers a (sent_to_each hs (relayed g.routing.reliable l x)))
        × (g'.clients.handlers ≡ replace w h' g.clients.handlers)
  escaped_relayed g id h l hs bytes x e found same leased mode called open_at all_set has_hdlcd good
        low honest =
      relay g id h l hs (escaped_frame (0x03 ∷ 0x00 ∷ bytes)) bytes x _ found same leased
        (Protocol.Delivery.on_frame_data_request w h.protocol e bytes mode open_at called) all_set
        has_hdlcd good low honest
