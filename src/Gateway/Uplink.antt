-- ===== src/Gateway/Uplink.antt =====
-- The gateway as a whole: the way of a packet from the wire of a gateway client to the HDLC daemons.
use snet_gateway.Prelude.{
  ℕ, ◌<◌, ◌≤◌, ◌≡◌, ◌≢◌, ◌⊎◌, refl, true, some, List, [], ◌∷◌, Bytes, length, map,
}
use snet_gateway.Prelude.Result.{ok}
use snet_gateway.External.FrameEndpoint.{FrameEndpoint}
use snet_gateway.External.FrameStream.{FrameStream}
use snet_gateway.External.Message.{SnetServiceMessage, MessageLaws}
use snet_gateway.External.HdlcdClient.{HdlcdAccess}
use snet_gateway.AddressPool.{AddressLease}
use snet_gateway.Protocol.{GatewayAccessFrame, GatewayAccessProtocol, FramingMode, unknown}
use snet_gateway.Protocol.Factories.{gateway_class, mask_first_byte, frame_factories}
use snet_gateway.Protocol.Faults.{capacity}
use snet_gateway.Protocol.Stream.{written, stream_round_trip}
use snet_gateway.Handler.{GatewayAccessServerHandler}
use snet_gateway.Collection.Identity.{find, replace}
use snet_gateway.Collection.Validity.{found-IsOpen}
use snet_gateway.Collection.Invariant.{IsValid}
use snet_gateway.Hdlcd.{HdlcdClientHandler}
use snet_gateway.HdlcdCollection.Sending.{pointers}
use snet_gateway.Gateway.{Gateway, frame_read, handle, run}
use snet_gateway.Gateway.Relay.{relay, relayed, sent_to_each}
use snet_gateway.Gateway.Requests.{
  request_frame, request_frame-IsComplete, request_frame-Delivers, acknowledged,
}

module _ (w : FrameEndpoint GatewayAccessFrame) (m : SnetServiceMessage) (a : HdlcdAccess)
    (laws : MessageLaws m) (s : FrameStream gateway_class mask_first_byte frame_factories) where
  -- A packet gets from a client to the devices. A connected client sends a packet for a sensor node, an
  -- address below 0x3FFC, with another source than 0xFFFE, in a frame of its framing mode, or of either
  -- mode if it has none yet, that the mode can carry. The frame has bytes, and the gateway that reads
  -- them does not fault: of each HDLC daemon whose handler has a client, `Send` of that client is called
  -- once, with exactly this packet, with the address of the sender as its source and with the OnAirARQ
  -- flag if the gateway is started as reliable; nothing else of the handlers changes. The only gateway
  -- client that changes is the sender: it has the mode of its frame, and for a data request of the
  -- escaping-based mode its endpoint is handed the acknowledgment.
  pub client_to_daemons :
      (g : Gateway w m a) (id : ℕ) (h : GatewayAccessServerHandler w) (l : AddressLease)
      (e : w.Endpoint) (n : FramingMode) (hs : List (HdlcdClientHandler a)) (packet : Bytes)
      (x : m.Message) (frame : GatewayAccessFrame)
      → IsValid w g.clients
      → find w id g.clients.handlers ≡ some h
      → h.address_lease ≡ some l
      → h.protocol.frame_endpoint ≡ some e
      → h.protocol.framing_mode ≡ n ⊎ h.protocol.framing_mode ≡ unknown
      → request_frame n packet ≡ some frame
      → length packet ≤ capacity n
      → g.daemons.handlers ≡ pointers a hs
      → g.routing.has_hdlcd ≡ true
      → m.deserialize packet ≡ some x
      → m.dst_ssa x < 0x3FFC
      → m.src_ssa x ≢ 0xFFFE
      → (sent : Bytes) × (g' : Gateway w m a) × (q : GatewayAccessProtocol w) × (written
            (frame ∷ [])
          ≡ ok sent)
        × (run w m a (map (frame_read id) (s.frames sent)) g ≡ ok g')
        × (g'.daemons.handlers
            ≡ pointers a (sent_to_each w m a laws hs (relayed w m a laws g.routing.reliable l x)))
        × (g'.clients.handlers ≡ replace w (record h { protocol = q }) g.clients.handlers)
        × (q.framing_mode ≡ n)
        × (q.frame_endpoint ≡ some (acknowledged w n e))
  unfolding run handle
  client_to_daemons g id h l e n hs packet x frame v found leased there mode chosen short all_set
        has_hdlcd good low honest =
      let (is_open, same) = found-IsOpen w g.clients id h found v in
      let (sent, wrote, frames) =
        stream_round_trip s (frame ∷ [])
          (request_frame-IsComplete n packet frame short chosen, tt) in
      let (q, read, mode', there') =
        request_frame-Delivers w h.protocol e n packet frame mode there is_open.on_data chosen in
      let (g', done, daemons, clients) =
        relay w m a laws g id h l hs frame packet x q found same leased read all_set has_hdlcd good
          low honest in
      (sent, g', q, wrote, rw (frames, done) refl, daemons, clients, mode', there')
