-- ===== src/Routing/Table.antt =====
-- Routing.cpp: which packets go where.
use snet_gateway.Prelude.{ℕ, ◌≤◌, ◌<◌, ◌≡◌, ◌≢◌, ◌↔◌, ◌⊎◌, true, false, if◌then◌else◌, arith}
use snet_gateway.External.Message.{SnetServiceMessage}
use snet_gateway.Routing.{
  Component, hdlcd, gwclients, unknown, perform_routing, Routing, Forward, nowhere, to_hdlcd,
  to_clients, route_snet_packet,
}

-- A packet goes to the HDLC daemons exactly when it is for a sensor node and not for the address
-- service, or when a client sent it to 0xFFFE.
pub perform_routing-hdlcd_iff :
    (c : Component) (src dst : ℕ)
    → (perform_routing c src dst ≡ hdlcd)
      ↔ (((dst < 0x4000) × (dst ≢ 0x3FFC)) ⊎ ((dst ≡ 0xFFFE) × (c ≡ gwclients)))
unfolding perform_routing
perform_routing-hdlcd_iff c src dst = ((λ h. ground arith), (λ h. ground arith))

-- A packet goes to the gateway clients exactly when it is for an address above the gateway's, but
-- for a client's packet to 0xFFFE, or when a sensor node sent it to the gateway.
pub perform_routing-gwclients_iff :
    (c : Component) (src dst : ℕ)
    → (perform_routing c src dst ≡ gwclients)
      ↔ (((0x4000 < dst) × ((dst ≡ 0xFFFE) → c ≢ gwclients)) ⊎ ((dst ≡ 0x4000) × (src < 0x4000)))
unfolding perform_routing
perform_routing-gwclients_iff c src dst = ((λ h. ground arith), (λ h. ground arith))

module _ (m : SnetServiceMessage) where
  open m use {Message, src_ssa, dst_ssa, set_on_air_arq, serialize}

  -- While both collections are there, a packet for the HDLC daemons is sent with the OnAirARQ flag
  -- when the gateway is started as reliable and unchanged otherwise, a packet for the gateway
  -- clients is handed over unchanged, and all others are dropped; after the shutdown every packet
  -- is dropped.
  pub route_snet_packet-forward :
      (r : Routing) (x : Message) (c : Component)
      → let d = perform_routing c (src_ssa x) (dst_ssa x) in
        let f = (route_snet_packet m r x c).forward in
        (d ≡ hdlcd
          → r.has_hdlcd ≡ true
          → f ≡ to_hdlcd (serialize (if r.reliable then set_on_air_arq true x else x)) true)
        × (d ≡ gwclients → r.has_clients ≡ true → f ≡ to_clients x)
        × (d ≡ unknown → f ≡ nowhere)
        × (r.has_hdlcd ≡ false → r.has_clients ≡ false → f ≡ nowhere)
  unfolding route_snet_packet
  route_snet_packet-forward r x c = ground arith

  -- What can be carried out of a packet's way: it is dropped, or it goes to the HDLC daemons, or it
  -- is handed unchanged to the gateway clients, and then it is not for a sensor node.
  abbrev pub IsOnItsWay : Message → Forward m → Type 0
  IsOnItsWay x nowhere = Unit
  IsOnItsWay x (to_hdlcd bytes reliable) = Unit
  IsOnItsWay x (to_clients y) = (y ≡ x) × (0x4000 ≤ dst_ssa x)

  pub route_snet_packet-IsOnItsWay :
      (r : Routing) (x : Message) (c : Component) → IsOnItsWay x (route_snet_packet m r x c).forward
  unfolding route_snet_packet perform_routing
  route_snet_packet-IsOnItsWay r x c = ground arith
