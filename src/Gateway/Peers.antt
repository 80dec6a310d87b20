-- ===== src/Gateway/Peers.antt =====
-- The gateway as a whole: the way of a packet from the wire of a gateway client to the wire of another.
use snet_gateway.Prelude.{
  sym, ◌∙◌, ℕ, ◌<◌, ◌≤◌, ◌≡◌, ◌≢◌, ◌⊎◌, refl, true, some, [], ◌∷◌, Bytes, length, map,
}
use snet_gateway.Prelude.Result.{ok}
use snet_gateway.External.FrameEndpoint.{FrameEndpoint}
use snet_gateway.External.FrameStream.{FrameStream}
use snet_gateway.External.Message.{SnetServiceMessage, MessageLaws}
use snet_gateway.External.HdlcdClient.{HdlcdAccess}
use snet_gateway.AddressPool.{AddressLease, get_address}
use snet_gateway.Protocol.{GatewayAccessFrame, FramingMode, unknown}
use snet_gateway.Protocol.Factories.{gateway_class, mask_first_byte, frame_factories}
use snet_gateway.Protocol.Faults.{capacity}
use snet_gateway.Protocol.Stream.{written, stream_round_trip}
use snet_gateway.Handler.{GatewayAccessServerHandler}
use snet_gateway.Handler.Filter.{IsUnicast, IsSubscribed}
use snet_gateway.Collection.Identity.{find, find-replace_other}
use snet_gateway.Collection.Validity.{found-IsOpen}
use snet_gateway.Collection.Invariant.{IsValid}
use snet_gateway.Gateway.{Gateway, frame_read, handle, run}
use snet_gateway.Gateway.Exchange.{packet_exchanged}
use snet_gateway.Gateway.Requests.{
  request_frame, request_frame-IsComplete, request_frame-Delivers, is_set,
}
use snet_gateway.Gateway.Wire.{data_frame, IsOnWire, served-IsOnWire}

module _ (w : FrameEndpoint GatewayAccessFrame) (m : SnetServiceMessage) (a : HdlcdAccess)
    (laws : MessageLaws m) (s : FrameStream gateway_class mask_first_byte frame_factories) where
  -- A packet gets from client to client. A client sends a packet for an address above the gateway's
  -- own, source and destination 0xFFFE aside, in a frame of its framing mode, or of either mode if it
  -- has none yet, with at most the 4093 or 4095 bytes that the mode can carry. The frame has bytes, and
  -- the gateway that reads them does not fault and hands each other client that wants the packet and
  -- has a framing mode one frame more, the one in which that mode has the packet with the sender's own
  -- address as its source, of which the receiver reads exactly this frame. Here the packet is at most
  -- 4093 bytes long when it is handed on.
  pub client_to_client :
      (g : Gateway w m a) (id id' : ℕ) (h h' : GatewayAccessServerHandler w) (l l' : AddressLease)
      (n : FramingMode) (packet : Bytes) (x : m.Message) (frame frame' : GatewayAccessFrame)
      (e : w.Endpoint)
      → IsValid w g.clients
      → g.routing.has_clients ≡ true
      → find w id g.clients.handlers ≡ some h
      → h.address_lease ≡ some l
      → h.protocol.framing_mode ≡ n ⊎ h.protocol.framing_mode ≡ unknown
      → request_frame n packet ≡ some frame
      → length packet ≤ capacity n
      → m.deserialize packet ≡ some x
      → m.src_ssa x ≢ 0xFFFE
      → 0x4000 < m.dst_ssa x
      → m.dst_ssa x ≢ 0xFFFE
      → id' ≢ id
      → let y = m.set_src_ssa (get_address l) x in
        length (m.serialize y) ≤ 4093
        → find w id' g.clients.handlers ≡ some h'
        → h'.address_lease ≡ some l'
        → h'.protocol.frame_endpoint ≡ some e
        → data_frame h'.protocol.framing_mode (m.serialize y) ≡ some frame'
        → IsUnicast w m l' y ⊎ IsSubscribed w m h' y
        → (sent : Bytes) × (g' : Gateway w m a) × (written (frame ∷ []) ≡ ok sent)
          × (run w m a (map (frame_read id) (s.frames sent)) g ≡ ok g')
          × IsOnWire w s g'.clients.handlers id' e frame'
          × IsValid w g'.clients
          × (g'.daemons ≡ g.daemons)
  unfolding run handle
  client_to_client g id id' h h' l l' n packet x frame frame' e v has_clients found leased mode
        chosen short good honest high upwards other fits found' leased' endpoint chosen' want =
      let (is_open, same_id) = found-IsOpen w g.clients id h found v in
      let (sent, wrote, frames) =
        stream_round_trip s (frame ∷ [])
          (request_frame-IsComplete n packet frame short chosen, tt) in
      let (e0, endpoint0) = is_set h.protocol.frame_endpoint is_open.endpoint in
      let (q, reads, _, _) =
        request_frame-Delivers w h.protocol e0 n packet frame mode endpoint0 is_open.on_data
          chosen in
      let (g', done, served, valid, kept) =
        packet_exchanged w m a laws g id h l frame packet x q found leased reads good honest high
          upwards has_clients fits v in
      let still =
        find-replace_other w id' (record h { protocol = q }) g.clients.handlers
          (λ k. other (sym k ∙ same_id))
        ∙ found' in
      let arrived =
        served-IsOnWire w m s (m.set_src_ssa (get_address l) x) _ g'.clients.handlers id' h' l' e
          frame' served fits still leased' endpoint chosen' want in
      (sent, g', wrote, rw (frames, done) refl, arrived, valid, kept)
