-- ===== src/Protocol.antt =====
-- GatewayAccessProtocol.h and GatewayAccessProtocol.cpp, over any frame endpoint. A call of a
-- callback is a value that the caller of the operation runs next: each is the last thing that its
-- operation does.
pub mod Modes
pub mod Delivery
pub mod Faults
pub mod Factories
pub mod Stream
pub mod Calls
use snet_gateway.Prelude.{
  ℕ, ◌+◌, ◌*◌, ◌%◌, ◌^◌, Bool, true, false, ◌||◌, Option, none, some, List, [], ◌∷◌, Bytes,
  get_elem?, ◌==◌, if◌then◌else◌,
}
use snet_gateway.Prelude.Result.{Result, ok, out_of_range, null_pointer, ◌>>=◌, or_fault}
use snet_gateway.External.FrameEndpoint.{FrameEndpoint}
use snet_gateway.Frames.Escaped
use snet_gateway.Frames.Escaped.{GatewayAccessFrameEscaped}
use snet_gateway.Frames.LengthBased
use snet_gateway.Frames.LengthBased.{GatewayAccessFrameLength}
use snet_gateway.CommandResponse.{
  CommandResponseFrame, frame_0101, frame_0111, frame_0300, frame_0301, frame_0302,
}

-- `E_GATEWAY_ACCESS_FRAME` and the frame classes below `GatewayAccessFrame`.
pub data GatewayAccessFrame : Type 0 where
  escaped : GatewayAccessFrameEscaped → GatewayAccessFrame
  length_based : GatewayAccessFrameLength → GatewayAccessFrame

unfoldable pub serialize : GatewayAccessFrame → Result Bytes
serialize (escaped f) = Escaped.serialize f
serialize (length_based f) = LengthBased.serialize f

-- `E_FRAMING_MODE`
pub data FramingMode : Type 0 where
  unknown escaping length_prefixed : FramingMode

abbrev accepts_escaped : FramingMode → Bool
accepts_escaped unknown = true
accepts_escaped escaping = true
accepts_escaped length_prefixed = false

abbrev accepts_length : FramingMode → Bool
accepts_length unknown = true
accepts_length escaping = false
accepts_length length_prefixed = true

-- A call that the protocol makes: the payload of a frame has come, or the connection is closed.
pub data Callback : Type 0 where
  data_callback : Bytes → Callback
  closed_callback : Callback

-- `RequestId` of an escaped frame.
request_id : Bytes → Result ℕ
request_id payload = do
  b0 ← or_fault out_of_range (get_elem? payload 0)
  b1 ← or_fault out_of_range (get_elem? payload 1)
  ok ((b0 * 2 ^ 8 + b1) % 2 ^ 16)

module _ (w : FrameEndpoint GatewayAccessFrame) where
  -- The callbacks count as set or not set.
  pub record GatewayAccessProtocol : Type 0 where
    pub framing_mode : FramingMode
    pub frame_endpoint : Option w.Endpoint
    pub has_on_data : Bool
    pub has_on_closed : Bool

  -- The constructor, at the endpoint that it makes.
  unfoldable pub construct : w.Endpoint → GatewayAccessProtocol
  construct e = record {
    framing_mode = unknown;
    frame_endpoint = some e;
    has_on_data = false;
    has_on_closed = false;
  }

  -- `SetOnDataCallback` and `SetOnClosedCallback`
  unfoldable pub set_on_data_callback : Bool → GatewayAccessProtocol → GatewayAccessProtocol
  set_on_data_callback given p = record p { has_on_data = given }

  unfoldable pub set_on_closed_callback : Bool → GatewayAccessProtocol → GatewayAccessProtocol
  set_on_closed_callback given p = record p { has_on_closed = given }

  unfoldable pub start : GatewayAccessProtocol → Result GatewayAccessProtocol
  start p = do
    e ← or_fault null_pointer p.frame_endpoint
    ok (record p { frame_endpoint = some (w.start e) })

  closed_callbacks : GatewayAccessProtocol → List Callback
  closed_callbacks p = if p.has_on_closed then closed_callback ∷ [] else []

  unfoldable pub close : GatewayAccessProtocol → Result (List Callback × GatewayAccessProtocol)
  unfolding closed_callbacks
  close p = do
    e ← or_fault null_pointer p.frame_endpoint
    ok (closed_callbacks p, record p { frame_endpoint = some (w.close e) })

  -- `OnClosed`, called by the endpoint.
  unfoldable pub on_closed : GatewayAccessProtocol → Result (List Callback × GatewayAccessProtocol)
  unfolding close
  on_closed p = close p

  -- What `Send` returns, whether it posts the callback itself, and the protocol after it.
  pub record Sent : Type 0 where
    pub accepted : Bool
    pub posted : Bool
    pub protocol : GatewayAccessProtocol

  -- The payload is dropped, and the callback is posted if there is one.
  consume : GatewayAccessProtocol → Bool → Sent
  consume p has_callback = record { accepted = true; posted = has_callback; protocol = p }

  hand_over : GatewayAccessProtocol → w.Endpoint → GatewayAccessFrame → Bool → Sent
  hand_over p e frame has_callback =
      let (taken, e') = w.send_frame e frame has_callback in
      record { accepted = taken; posted = false; protocol = record p { frame_endpoint = some e' } }

  send_by : FramingMode → GatewayAccessProtocol → Option w.Endpoint → Bytes → Bool → Result Sent
  unfolding consume hand_over
  send_by unknown p o payload has_callback = ok (consume p has_callback)
  send_by escaping p none payload has_callback = ok (consume p has_callback)
  send_by escaping p (some e) payload has_callback = do
    frame ← Escaped.create (frame_0302 payload).serialize
    ok (hand_over p e (escaped frame) has_callback)
  send_by length_prefixed p none payload has_callback = ok (consume p has_callback)
  send_by length_prefixed p (some e) payload has_callback = do
    frame ← LengthBased.create payload
    ok (hand_over p e (length_based frame) has_callback)

  -- `Send`
  unfoldable pub send : GatewayAccessProtocol → Bytes → Bool → Result Sent
  unfolding send_by
  send p payload has_callback = send_by p.framing_mode p p.frame_endpoint payload has_callback

  -- A response of the escaping-based mode; the result of `SendFrame` is not looked at.
  respond : GatewayAccessProtocol → CommandResponseFrame → Result GatewayAccessProtocol
  respond p response = do
    e ← or_fault null_pointer p.frame_endpoint
    frame ← Escaped.create response.serialize
    ok (record p { frame_endpoint = some (w.send_frame e (escaped frame) false).1 })

  respond_if_endpoint : GatewayAccessProtocol → Option w.Endpoint → Result GatewayAccessProtocol
  unfolding respond
  respond_if_endpoint p none = ok p
  respond_if_endpoint p (some e) = respond p frame_0101

  -- The callback of a data request takes the payload without its request identifier.
  deliver_request : Bool → Bytes → Result (List Callback)
  deliver_request false payload = ok []
  deliver_request true payload = do
    higher_layer ← (frame_0300 payload).get_payload
    ok (data_callback higher_layer ∷ [])

  on_request : GatewayAccessProtocol → Bytes → ℕ → Result (List Callback × GatewayAccessProtocol)
  unfolding respond_if_endpoint respond deliver_request
  on_request p payload id =
      if id == 0x0100
      then (do p' ← respond_if_endpoint p p.frame_endpoint; ok ([], p'))
      else if id == 0x0110
      then (do p' ← respond p frame_0111; ok ([], p'))
      else if id == 0x0300
      then (do
        p' ← respond p frame_0301
        calls ← deliver_request p.has_on_data payload
        ok (calls, p'))
      else close p

  on_escaped :
      GatewayAccessProtocol
      → GatewayAccessFrameEscaped
      → Result (List Callback × GatewayAccessProtocol)
  unfolding on_request request_id
  on_escaped p frame = do
    payload ← Escaped.get_payload frame
    id ← request_id payload
    on_request (record p { framing_mode = escaping }) payload id

  deliver_length : Bool → GatewayAccessFrameLength → Result (List Callback)
  deliver_length false frame = ok []
  deliver_length true frame = do
    payload ← LengthBased.get_payload frame
    ok (data_callback payload ∷ [])

  on_length :
      GatewayAccessProtocol
      → GatewayAccessFrameLength
      → Result (List Callback × GatewayAccessProtocol)
  unfolding deliver_length
  on_length p frame = do
    calls ← deliver_length p.has_on_data frame
    ok (calls, record p { framing_mode = length_prefixed })

  -- `OnFrame`, which always returns true.
  unfoldable pub on_frame :
      GatewayAccessProtocol → GatewayAccessFrame → Result (List Callback × GatewayAccessProtocol)
  unfolding on_escaped on_length close
  on_frame p (escaped frame) =
      if accepts_escaped p.framing_mode then on_escaped p frame else close p
  on_frame p (length_based frame) =
      if accepts_length p.framing_mode then on_length p frame else close p
