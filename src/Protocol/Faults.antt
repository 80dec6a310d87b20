-- ===== src/Protocol/Faults.antt =====
-- GatewayAccessProtocol.cpp: when `Send` and `OnFrame` fault, and when they do not.
use snet_gateway.Prelude.{
  ℕ, ◌<◌, ◌≤◌, ◌≡◌, ◌≢◌, Bool, true, false, some, [], ◌∷◌, Bytes, length, arith, none,
}
use snet_gateway.Prelude.Result.{ok, fault, assertion_failed, out_of_range, IsOk}
use snet_gateway.External.FrameEndpoint.{FrameEndpoint}
use snet_gateway.Frames.Escaped
use snet_gateway.Frames.Escaped.{GatewayAccessFrameEscaped}
use snet_gateway.Frames.LengthBased
use snet_gateway.Frames.LengthBased.{GatewayAccessFrameLength}
use snet_gateway.CommandResponse.{frame_0300}
use snet_gateway.Protocol.{
  GatewayAccessFrame, escaped, length_based, FramingMode, unknown, escaping, length_prefixed,
  GatewayAccessProtocol, Sent, send, on_frame,
}

-- The longest packet that a mode can carry.
abbrev pub capacity : FramingMode → ℕ
capacity unknown = 0
capacity escaping = 4093
capacity length_prefixed = 4095

-- The frame that carries a packet.
abbrev pub frame_for : FramingMode → Bytes → GatewayAccessFrame
frame_for length_prefixed payload = length_based (LengthBased.Steps.finished payload)
frame_for _ payload = escaped (Escaped.Steps.finished (0x03 ∷ 0x02 ∷ payload))

module _ (w : FrameEndpoint GatewayAccessFrame) where
  -- Before a mode is known, a packet is dropped: nothing reaches the endpoint, the caller is told
  -- that it was taken, and its callback is posted.
  pub send_unknown :
      (p : GatewayAccessProtocol w) (payload : Bytes) (has_callback : Bool)
      → p.framing_mode ≡ unknown
      → send w p payload has_callback
        ≡ ok (record { accepted = true; posted = has_callback; protocol = p })
  unfolding send
  send_unknown p payload has_callback m = ground arith

  -- Once a mode is known, `Send` succeeds for packets up to the capacity of the mode, 4093 bytes in
  -- the escaping-based mode and 4095 in the length-based one, and changes nothing but the endpoint.
  -- For every longer packet an assertion fails.
  pub send-capacity :
      (p : GatewayAccessProtocol w) (e : w.Endpoint) (payload : Bytes) (has_callback : Bool)
      → p.framing_mode ≢ unknown
      → p.frame_endpoint ≡ some e
      → (length payload ≤ capacity p.framing_mode
          → let sent = w.send_frame e (frame_for p.framing_mode payload) has_callback in
            send w p payload has_callback
            ≡ ok (record {
              accepted = sent.0;
              posted = false;
              protocol = record p { frame_endpoint = some sent.1 };
            }))
        × (capacity p.framing_mode < length payload
            → send w p payload has_callback ≡ fault assertion_failed)
  unfolding send Escaped.create LengthBased.create
  send-capacity p e payload has_callback m h = ground arith

  -- An escaped frame that is accepted faults when its payload is too short for a request
  -- identifier, and otherwise it is handled.
  pub on_frame_short :
      (p : GatewayAccessProtocol w) (e : w.Endpoint) (payload : Bytes)
      → p.framing_mode ≢ length_prefixed
      → p.frame_endpoint ≡ some e
      → let f = escaped (Escaped.Steps.finished payload) in
        (length payload < 2 → on_frame w p f ≡ fault out_of_range)
        × (2 ≤ length payload → IsOk (on_frame w p f))
  unfolding on_frame Escaped.get_payload Escaped.create frame_0300
  on_frame_short p e [] m h = ground arith
  on_frame_short p e (b ∷ []) m h = ground arith
  on_frame_short p e (b0 ∷ b1 ∷ payload) m h = ground arith

  -- `Send` changes nothing but the endpoint.
  pub send_keeps :
      (p : GatewayAccessProtocol w) (payload : Bytes) (has_callback : Bool) (s : Sent w)
      → send w p payload has_callback ≡ ok s
      → (s.protocol.framing_mode ≡ p.framing_mode)
        × (s.protocol.has_on_data ≡ p.has_on_data)
        × (s.protocol.has_on_closed ≡ p.has_on_closed)
        × (p.frame_endpoint ≢ none → s.protocol.frame_endpoint ≢ none)
  unfolding send
  send_keeps p payload has_callback s h = ground arith

  -- A packet of at most 4093 bytes can be sent in every mode.
  pub send-IsOk :
      (p : GatewayAccessProtocol w) (payload : Bytes) (has_callback : Bool)
      → length payload ≤ 4093
      → IsOk (send w p payload has_callback)
  unfolding send Escaped.create LengthBased.create
  send-IsOk p payload has_callback fits = ground arith
