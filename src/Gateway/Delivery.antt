-- ===== src/Gateway/Delivery.antt =====
-- The gateway as a whole: the way of a packet from an HDLC daemon to the gateway clients.
use snet_gateway.Prelude.{
  ℕ, ◌<◌, ◌≤◌, ◌≡◌, refl, true, some, arith, Bytes, All₂, inl, length, get_elem?, ◌≢◌,
}
use snet_gateway.Prelude.Result.{ok, ◌>>=◌}
use snet_gateway.External.FrameEndpoint.{FrameEndpoint}
use snet_gateway.External.Message.{SnetServiceMessage}
use snet_gateway.External.HdlcdClient.{HdlcdAccess}
use snet_gateway.Protocol.{GatewayAccessFrame}
use snet_gateway.Collection
use snet_gateway.Collection.{GatewayAccessServerHandlerCollection}
use snet_gateway.Collection.Invariant.{IsValid}
use snet_gateway.Collection.Sending.{Serves, send-Serves_all, send-total}
use snet_gateway.Routing
use snet_gateway.Routing.{Component, hdlcd, gwclients}
use snet_gateway.Hdlcd
use snet_gateway.Hdlcd.{HdlcdClientHandler}
use snet_gateway.Gateway.{Gateway, on_data, route, carry_out}

module _ (w : FrameEndpoint GatewayAccessFrame) (m : SnetServiceMessage) (a : HdlcdAccess) where
  pub data_read :
      (h : HdlcdClientHandler a) (bytes : Bytes) (x : m.Message)
      → h.has_routing ≡ true
      → m.deserialize bytes ≡ some x
      → Hdlcd.on_data a m h bytes ≡ ok (some x)
  unfolding Hdlcd.on_data
  data_read h bytes x routed good = rw (good, Hdlcd.on_data) (rw routed refl)

  -- A packet for the clients is sent to their collection, and nothing else happens.
  pub route-to_clients :
      (g : Gateway w m a) (x : m.Message) (src_component : Component)
      → g.routing.has_clients ≡ true
      → 0x4000 < m.dst_ssa x
      → (m.dst_ssa x ≡ 0xFFFE → src_component ≢ gwclients)
      → route w m a (some x) src_component g
        ≡ (Collection.send w m g.clients x >>= λ c. ok (record g { clients = c }))
  unfolding route carry_out
  route-to_clients g x src_component has_clients high upwards =
      let to =
        (Routing.Table.perform_routing-gwclients_iff src_component (m.src_ssa x) (m.dst_ssa x)).1
          (inl (high, upwards)) in
      let f =
        (Routing.Table.route_snet_packet-forward m g.routing x src_component).1 to has_clients in
      rw f refl

  route-clients :
      (g : Gateway w m a) (x : m.Message) (c' : GatewayAccessServerHandlerCollection w)
      (src_component : Component)
      → g.routing.has_clients ≡ true
      → 0x4000 < m.dst_ssa x
      → (m.dst_ssa x ≡ 0xFFFE → src_component ≢ gwclients)
      → Collection.send w m g.clients x ≡ ok c'
      → route w m a (some x) src_component g ≡ ok (record g { clients = c' })
  route-clients g x c' src_component has_clients high upwards sent =
      rw (route-to_clients g x src_component has_clients high upwards, sent) refl

  -- A packet of at most 4093 bytes for an address above the gateway's own that comes from an HDLC
  -- daemon is handed to exactly the clients that want it: the client whose address it carries, and
  -- for a wildcard address each client that has subscribed to its service. The event does not
  -- fault, all other clients are left as they were, and the HDLCd handlers do not change.
  pub packet_delivered :
      (g : Gateway w m a) (index : ℕ) (h : HdlcdClientHandler a) (bytes : Bytes) (x : m.Message)
      → get_elem? g.daemons.handlers index ≡ some (some h)
      → h.has_routing ≡ true
      → m.deserialize bytes ≡ some x
      → g.routing.has_clients ≡ true
      → 0x4000 < m.dst_ssa x
      → length (m.serialize x) ≤ 4093
      → IsValid w g.clients
      → (g' : Gateway w m a) × (on_data w m a index bytes g ≡ ok g')
        × All₂ (Serves w m x) g.clients.handlers g'.clients.handlers
        × IsValid w g'.clients
        × (g'.daemons ≡ g.daemons)
  unfolding on_data
  packet_delivered g index h bytes x found routed good has_clients high fits v =
      let at_least : 0x4000 ≤ m.dst_ssa x = omega arith in
      let (c', sent) = send-total w m g.clients x at_least fits v in
      let (served, valid) = send-Serves_all w m g.clients c' x at_least v sent in
      (
        record g { clients = c' },
        rw (found, on_data)
            (rw (data_read h bytes x routed good)
              (route-clients g x c' hdlcd has_clients high (λ e k. cc) sent)),
        served,
        valid,
        refl,
      )
