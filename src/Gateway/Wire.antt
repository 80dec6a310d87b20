-- ===== src/Gateway/Wire.antt =====
-- The gateway as a whole: the way of a packet from an HDLC daemon to the wire of a gateway client.
use mathlib.Core.Path.{subst}
use snet_gateway.Prelude.{
  ℕ, ◌<◌, ◌≤◌, ◌≡◌, ◌⊎◌, refl, true, false, Option, none, some, List, [], ◌∷◌, arith, Bytes, All₂,
  length, get_elem?, Bool-cases, inl, inr, ◌==◌,
}
use snet_gateway.Prelude.Result.{ok}
use snet_gateway.External.FrameEndpoint.{FrameEndpoint}
use snet_gateway.External.FrameStream.{FrameStream}
use snet_gateway.External.Message.{SnetServiceMessage}
use snet_gateway.External.HdlcdClient.{HdlcdAccess}
use snet_gateway.AddressPool.{AddressLease}
use snet_gateway.Frames.Escaped
use snet_gateway.Frames.LengthBased
use snet_gateway.Protocol
use snet_gateway.Protocol.{
  GatewayAccessFrame, GatewayAccessProtocol, FramingMode, unknown, escaping, length_prefixed,
}
use snet_gateway.Protocol.Delivery.{escaped_frame, length_frame, after_frame}
use snet_gateway.Protocol.Factories.{gateway_class, mask_first_byte, frame_factories}
use snet_gateway.Protocol.Stream.{IsComplete, written, stream_round_trip}
use snet_gateway.Handler.{GatewayAccessServerHandler, deliver}
use snet_gateway.Handler.Filter.{IsUnicast, IsSubscribed}
use snet_gateway.Collection.Identity.{find}
use snet_gateway.Collection.Invariant.{IsValid}
use snet_gateway.Collection.Sending.{Serves}
use snet_gateway.Hdlcd.{HdlcdClientHandler}
use snet_gateway.Gateway.{Gateway, on_data}
use snet_gateway.Gateway.Delivery.{packet_delivered}

-- The frame in which a client in a mode gets a packet: as it is, or behind the request identifier
-- 0x0302 of a data indication.
abbrev pub data_frame : FramingMode → Bytes → Option GatewayAccessFrame
data_frame unknown packet = none
data_frame escaping packet = some (escaped_frame (0x03 ∷ 0x02 ∷ packet))
data_frame length_prefixed packet = some (length_frame packet)

pub data_frame-IsComplete :
    (n : FramingMode) (packet : Bytes) (frame : GatewayAccessFrame)
    → length packet ≤ 4093
    → data_frame n packet ≡ some frame
    → IsComplete frame
data_frame-IsComplete unknown packet frame fits e = cc
data_frame-IsComplete escaping packet frame fits e =
    let same : escaped_frame (0x03 ∷ 0x02 ∷ packet) ≡ frame = ground arith in
    subst IsComplete same (0x03 ∷ 0x02 ∷ packet, refl, omega arith)
data_frame-IsComplete length_prefixed packet frame fits e =
    let same : length_frame packet ≡ frame = ground arith in
    subst IsComplete same (packet, refl, omega arith)

module _ (w : FrameEndpoint GatewayAccessFrame) where
  pub send-data_frame :
      (p : GatewayAccessProtocol w) (e : w.Endpoint) (n : FramingMode) (packet : Bytes)
      (frame : GatewayAccessFrame)
      → p.framing_mode ≡ n
      → p.frame_endpoint ≡ some e
      → length packet ≤ 4093
      → data_frame n packet ≡ some frame
      → Protocol.send w p packet false ≡ ok (after_frame w p e frame false)
  unfolding Protocol.send Escaped.create LengthBased.create
  send-data_frame p e unknown packet frame mode there fits k = cc
  send-data_frame p e escaping packet frame mode there fits k = ground arith
  send-data_frame p e length_prefixed packet frame mode there fits k = ground arith

  find-All₂ :
      (R : GatewayAccessServerHandler w → GatewayAccessServerHandler w → Type 0) (id : ℕ)
      (hs hs' : List (GatewayAccessServerHandler w)) (h : GatewayAccessServerHandler w)
      → ((g g' : GatewayAccessServerHandler w) → R g g' → g'.id ≡ g.id)
      → All₂ R hs hs'
      → find w id hs ≡ some h
      → (h' : GatewayAccessServerHandler w) × (find w id hs' ≡ some h') × R h h'
  unfolding find
  find-All₂ R id [] [] h same r found = cc
  find-All₂ R id [] (g' ∷ hs') h same r found = elim r [ ]
  find-All₂ R id (g ∷ hs) [] h same r found = elim r [ ]
  find-All₂ R id (g ∷ hs) (g' ∷ hs') h same r found = elim (Bool-cases (g.id == id)) [
    | inl here ↦
        let is_h : g ≡ h = ground arith in
        (g', ground (arith, same g g' r.0), subst (λ u. R u g') is_h r.0)
    | inr later ↦
        let (h', again, rest) = find-All₂ R id hs hs' h same r.1 (rw later at found) in
        (h', ground (arith, same g g' r.0), rest)
  ]

-- The endpoint of a client is handed one frame more, the bytes of which a peer reads as this frame.
pub record IsOnWire (w : FrameEndpoint GatewayAccessFrame)
    (s : FrameStream gateway_class mask_first_byte frame_factories)
    (hs : List (GatewayAccessServerHandler w)) (id : ℕ) (e : w.Endpoint)
    (frame : GatewayAccessFrame) : Type 0 where
  pub handler : GatewayAccessServerHandler w
  pub bytes : Bytes
  pub found : find w id hs ≡ some handler
  pub handed : handler.protocol.frame_endpoint ≡ some (w.send_frame e frame false).1
  pub wrote : written (frame ∷ []) ≡ ok bytes
  pub read : s.frames bytes ≡ frame ∷ []

module _ (w : FrameEndpoint GatewayAccessFrame)
    (s : FrameStream gateway_class mask_first_byte frame_factories) where
  pub handed-IsOnWire :
      (hs : List (GatewayAccessServerHandler w)) (id : ℕ) (h : GatewayAccessServerHandler w)
      (e : w.Endpoint) (frame : GatewayAccessFrame)
      → find w id hs ≡ some h
      → h.protocol.frame_endpoint ≡ some (w.send_frame e frame false).1
      → IsComplete frame
      → IsOnWire w s hs id e frame
  handed-IsOnWire hs id h e frame found handed whole =
      let (bs, wrote, read) = stream_round_trip s (frame ∷ []) (whole, tt) in
      record { handler = h; bytes = bs; found = found; handed = handed; wrote = wrote; read = read }

module _ (w : FrameEndpoint GatewayAccessFrame) (m : SnetServiceMessage)
    (s : FrameStream gateway_class mask_first_byte frame_factories) where
  -- What all clients are handed reaches the wire of each that wants it.
  pub served-IsOnWire :
      (x : m.Message) (hs hs' : List (GatewayAccessServerHandler w)) (id : ℕ)
      (h : GatewayAccessServerHandler w) (l : AddressLease) (e : w.Endpoint)
      (frame : GatewayAccessFrame)
      → All₂ (Serves w m x) hs hs'
      → length (m.serialize x) ≤ 4093
      → find w id hs ≡ some h
      → h.address_lease ≡ some l
      → h.protocol.frame_endpoint ≡ some e
      → data_frame h.protocol.framing_mode (m.serialize x) ≡ some frame
      → IsUnicast w m l x ⊎ IsSubscribed w m h x
      → IsOnWire w s hs' id e frame
  unfolding deliver
  served-IsOnWire x hs hs' id h l e frame served fits found leased endpoint chosen want =
      let (h', again, serves) =
        find-All₂ w (Serves w m x) id hs hs' h (λ u u' r. r.keeps.id) served found in
      let (taken, delivered) = serves.wanted l leased want in
      let sent =
        send-data_frame w h.protocol e h.protocol.framing_mode (m.serialize x) frame refl endpoint
          fits chosen in
      handed-IsOnWire w s hs' id h' e frame again (ground (arith, delivered, sent))
        (data_frame-IsComplete h.protocol.framing_mode (m.serialize x) frame fits chosen)

module _ (w : FrameEndpoint GatewayAccessFrame) (m : SnetServiceMessage) (a : HdlcdAccess)
    (s : FrameStream gateway_class mask_first_byte frame_factories) where
  -- A packet of at most 4093 bytes for an address above the gateway's own that comes from an HDLC
  -- daemon reaches the wire of each connected client that wants it and has chosen a framing mode: the
  -- client's endpoint is handed one frame more, the one in which its mode has a packet, that frame
  -- can be serialized, and a peer that reads those bytes gets exactly this frame.
  pub packet_on_wire :
      (g : Gateway w m a) (index : ℕ) (d : HdlcdClientHandler a) (bytes : Bytes) (x : m.Message)
      (id : ℕ) (h : GatewayAccessServerHandler w) (l : AddressLease) (e : w.Endpoint)
      (frame : GatewayAccessFrame)
      → get_elem? g.daemons.handlers index ≡ some (some d)
      → d.has_routing ≡ true
      → m.deserialize bytes ≡ some x
      → g.routing.has_clients ≡ true
      → 0x4000 < m.dst_ssa x
      → length (m.serialize x) ≤ 4093
      → IsValid w g.clients
      → find w id g.clients.handlers ≡ some h
      → h.address_lease ≡ some l
      → h.protocol.frame_endpoint ≡ some e
      → data_frame h.protocol.framing_mode (m.serialize x) ≡ some frame
      → IsUnicast w m l x ⊎ IsSubscribed w m h x
      → (g' : Gateway w m a) × (h' : GatewayAccessServerHandler w) × (bs : Bytes) × (on_data w m a
            index bytes g
          ≡ ok g')
        × (find w id g'.clients.handlers ≡ some h')
        × (h'.protocol.frame_endpoint ≡ some (w.send_frame e frame false).1)
        × (written (frame ∷ []) ≡ ok bs)
        × (s.frames bs ≡ frame ∷ [])
  packet_on_wire g index d bytes x id h l e frame there routed good has_clients high fits v found
        leased endpoint chosen want =
      let (g', done, served, valid, kept) =
        packet_delivered w m a g index d bytes x there routed good has_clients high fits v in
      let r =
        served-IsOnWire w m s x g.clients.handlers g'.clients.handlers id h l e frame served fits
          found leased endpoint chosen want in
      (g', r.handler, r.bytes, done, r.found, r.handed, r.wrote, r.read)
