-- ===== src/Gateway/Assigning.antt =====
-- The gateway as a whole: a client's request for its address, from wire to wire.
use snet_gateway.Prelude.{ℕ, ◌≤◌, ◌≡◌, ◌⊎◌, ◌∙◌, ap, refl, some, [], ◌∷◌, Bytes, length, map, false}
use snet_gateway.Prelude.Result.{ok}
use snet_gateway.External.FrameEndpoint.{FrameEndpoint}
use snet_gateway.External.FrameStream.{FrameStream}
use snet_gateway.External.Message.{SnetServiceMessage, MessageLaws, MessageSizes}
use snet_gateway.External.HdlcdClient.{HdlcdAccess}
use snet_gateway.AddressPool.{AddressLease, get_address}
use snet_gateway.AddressService.Replies.{IsRequest, IsReply}
use snet_gateway.Protocol.{GatewayAccessFrame, FramingMode, unknown, escaping, length_prefixed}
use snet_gateway.Protocol.Delivery.{after_frame}
use snet_gateway.Protocol.Factories.{gateway_class, mask_first_byte, frame_factories}
use snet_gateway.Protocol.Faults.{capacity}
use snet_gateway.Protocol.Stream.{written, stream_round_trip}
use snet_gateway.Handler.{GatewayAccessServerHandler}
use snet_gateway.Handler.Assigning.{on_payload-Assigns}
use snet_gateway.Collection.Identity.{find, replace, find-replace, replace-replace}
use snet_gateway.Collection.Validity.{found-IsOpen}
use snet_gateway.Collection.Invariant.{IsValid}
use snet_gateway.Gateway.{
  Gateway, frame_read, on_frame, run_callbacks, run_callback, route, handle, run, put,
}
use snet_gateway.Gateway.Requests.{
  request_frame, request_frame-IsComplete, request_frame-Delivers, acknowledged,
}
use snet_gateway.Gateway.Wire.{
  data_frame, data_frame-IsComplete, send-data_frame, IsOnWire, handed-IsOnWire,
}

-- A mode in which a client sends is one in which it gets packets.
data_frame-answer :
    (n : FramingMode) (packet answer : Bytes) (frame : GatewayAccessFrame)
    → request_frame n packet ≡ some frame
    → (frame' : GatewayAccessFrame) × (data_frame n answer ≡ some frame')
data_frame-answer unknown packet answer frame e = cc
data_frame-answer escaping packet answer frame e = (_, refl)
data_frame-answer length_prefixed packet answer frame e = (_, refl)

module _ (w : FrameEndpoint GatewayAccessFrame) (m : SnetServiceMessage) (a : HdlcdAccess)
    (laws : MessageLaws m) (sizes : MessageSizes m)
    (s : FrameStream gateway_class mask_first_byte frame_factories) where
  -- A client learns its address. A connected client sends a request for an address, with the UUID, in
  -- a frame of its framing mode, or of either mode if it has none yet, that the mode can carry. The
  -- frame has bytes, and the gateway that reads them does not fault: behind the acknowledgment, if the
  -- mode has one, the client's endpoint is handed exactly one frame, in which its mode has the reply of
  -- doc/protocol.md with the UUID and the address of its own lease, and of which the client reads
  -- exactly this frame. No other client and no HDLC daemon notices.
  pub address_assigned :
      (g : Gateway w m a) (id : ℕ) (h : GatewayAccessServerHandler w) (l : AddressLease)
      (e : w.Endpoint) (n : FramingMode) (packet : Bytes) (x : m.Message)
      (frame : GatewayAccessFrame)
      → IsValid w g.clients
      → find w id g.clients.handlers ≡ some h
      → h.address_lease ≡ some l
      → h.protocol.frame_endpoint ≡ some e
      → h.protocol.framing_mode ≡ n ⊎ h.protocol.framing_mode ≡ unknown
      → request_frame n packet ≡ some frame
      → length packet ≤ capacity n
      → m.deserialize packet ≡ some x
      → IsRequest m laws x
      → 6 ≤ length (m.payload x)
      → (sent : Bytes) × (g' : Gateway w m a) × (y : m.Message) × (frame' : GatewayAccessFrame)
        × (r : IsOnWire w s g'.clients.handlers id (acknowledged w n e) frame') × (written
              (frame ∷ [])
            ≡ ok sent)
        × (run w m a (map (frame_read id) (s.frames sent)) g ≡ ok g')
        × IsReply m laws x (get_address l) y
        × (data_frame n (m.serialize y) ≡ some frame')
        × (g'.clients.handlers ≡ replace w r.handler g.clients.handlers)
        × (g'.daemons ≡ g.daemons)
  unfolding run handle on_frame run_callbacks run_callback route
  address_assigned g id h l e n packet x frame v found leased there mode chosen short good request
        long =
      let (is_open, same) = found-IsOpen w g.clients id h found v in
      let hs = g.clients.handlers in
      let (sent, wrote, frames) =
        stream_round_trip s (frame ∷ [])
          (request_frame-IsComplete n packet frame short chosen, tt) in
      let (q, read, mode', there') =
        request_frame-Delivers w h.protocol e n packet frame mode there is_open.on_data chosen in
      let h' : GatewayAccessServerHandler w = record h { protocol = q } in
      let r = on_payload-Assigns w m laws sizes h' l packet x leased good request long in
      let (frame', chosen') = data_frame-answer n packet (m.serialize r.answer) frame chosen in
      let sends =
        send-data_frame w q (acknowledged w n e) n (m.serialize r.answer) frame' mode' there' r.fits
          chosen' in
      let after = after_frame w q (acknowledged w n e) frame' false in
      let h'' : GatewayAccessServerHandler w = record h { protocol = after.protocol } in
      let twice = replace-replace w h' h'' hs refl in
      let g' = put w m a h'' (put w m a h' g) in
      let done : on_frame w m a id frame g ≡ ok g' =
        rw (found, on_frame, read)
          (rw (find-replace w id h h' hs found same, run_callback)
            (rw (r.served after sends) refl)) in
      let again : find w id g'.clients.handlers ≡ some h'' =
        rw twice (find-replace w id h h'' hs found same) in
      let arrived =
        handed-IsOnWire w s g'.clients.handlers id h'' (acknowledged w n e) frame' again refl
          (data_frame-IsComplete n (m.serialize r.answer) frame' r.fits chosen') in
      let is_handler : h'' ≡ arrived.handler = cc (again, arrived.found) in
      (
        sent,
        g',
        r.answer,
        frame',
        arrived,
        wrote,
        rw (frames, done) refl,
        r.is_reply,
        chosen',
        twice ∙ ap (λ k. replace w k hs) is_handler,
        refl,
      )
