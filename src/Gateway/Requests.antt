-- ===== src/Gateway/Requests.antt =====
-- The gateway as a whole: the frame in which a client sends a packet.
use mathlib.Core.Path.{subst}
use snet_gateway.Prelude.{
  ◌≤◌, ◌≡◌, ◌≢◌, ◌⊎◌, refl, true, Option, none, some, [], ◌∷◌, arith, Bytes, length, false,
}
use snet_gateway.Prelude.Result.{ok}
use snet_gateway.External.FrameEndpoint.{FrameEndpoint}
use snet_gateway.Protocol
use snet_gateway.Protocol.{
  GatewayAccessFrame, GatewayAccessProtocol, FramingMode, unknown, escaping, length_prefixed,
  data_callback,
}
use snet_gateway.Protocol.Delivery
use snet_gateway.Protocol.Delivery.{escaped_frame, length_frame}
use snet_gateway.Protocol.Faults.{capacity}
use snet_gateway.Protocol.Stream.{IsComplete}

pub is_set {ℓ} : {A : Type ℓ} (o : Option A) → o ≢ none → (x : A) × (o ≡ some x)
is_set none n = absurd (n refl)
is_set (some x) n = (x, refl)

-- The frame in which a client of a mode sends a packet: as it is, or behind the request identifier
-- 0x0300 of a data request.
abbrev pub request_frame : FramingMode → Bytes → Option GatewayAccessFrame
request_frame unknown packet = none
request_frame escaping packet = some (escaped_frame (0x03 ∷ 0x00 ∷ packet))
request_frame length_prefixed packet = some (length_frame packet)

pub request_frame-IsComplete :
    (n : FramingMode) (packet : Bytes) (frame : GatewayAccessFrame)
    → length packet ≤ capacity n
    → request_frame n packet ≡ some frame
    → IsComplete frame
request_frame-IsComplete unknown packet frame fits e = cc
request_frame-IsComplete escaping packet frame fits e =
    let same : escaped_frame (0x03 ∷ 0x00 ∷ packet) ≡ frame = ground arith in
    subst IsComplete same (0x03 ∷ 0x00 ∷ packet, refl, omega arith)
request_frame-IsComplete length_prefixed packet frame fits e =
    let same : length_frame packet ≡ frame = ground arith in
    subst IsComplete same (packet, refl, omega arith)

module _ (w : FrameEndpoint GatewayAccessFrame) where
  -- The endpoint behind a frame with a packet: a data request is acknowledged.
  abbrev pub acknowledged : FramingMode → w.Endpoint → w.Endpoint
  acknowledged unknown e = e
  acknowledged escaping e =
      (w.send_frame e (escaped_frame (0x03 ∷ 0x01 ∷ 0x00 ∷ 0x00 ∷ [])) false).1
  acknowledged length_prefixed e = e

  abbrev Delivers :
      GatewayAccessProtocol w → w.Endpoint → FramingMode → Bytes → GatewayAccessFrame → Type 0
  Delivers p e n packet frame =
      (q : GatewayAccessProtocol w) × (Protocol.on_frame w p frame
        ≡ ok (data_callback packet ∷ [], q))
      × (q.framing_mode ≡ n)
      × (q.frame_endpoint ≡ some (acknowledged n e))

  -- The protocol of a connected client that has the mode, or none yet, delivers the packet.
  pub request_frame-Delivers :
      (p : GatewayAccessProtocol w) (e : w.Endpoint) (n : FramingMode) (packet : Bytes)
      (frame : GatewayAccessFrame)
      → p.framing_mode ≡ n ⊎ p.framing_mode ≡ unknown
      → p.frame_endpoint ≡ some e
      → p.has_on_data ≡ true
      → request_frame n packet ≡ some frame
      → Delivers p e n packet frame
  request_frame-Delivers p e unknown packet frame mode there called k = cc
  request_frame-Delivers p e escaping packet frame mode there called k =
      let same : escaped_frame (0x03 ∷ 0x00 ∷ packet) ≡ frame = ground arith in
      subst (Delivers p e escaping packet) same (
        _,
        Protocol.Delivery.on_frame_data_request w p e packet (λ u. ground arith) there called,
        refl,
        refl,
      )
  request_frame-Delivers p e length_prefixed packet frame mode there called k =
      let same : length_frame packet ≡ frame = ground arith in
      subst (Delivers p e length_prefixed packet) same
        (_, Protocol.Delivery.on_frame_length w p e packet (λ u. ground arith) called, refl, there)
