-- ===== src/Protocol/Delivery.antt =====
-- GatewayAccessProtocol.cpp, `Send` and `OnFrame`: a packet arrives as it was sent.
use snet_gateway.Prelude.{
  ◌+◌, ◌<◌, ◌≡◌, ◌≢◌, Bool, true, false, some, [], ◌∷◌, ◌++◌, Bytes, length, arith,
}
use snet_gateway.Prelude.Result.{ok}
use snet_gateway.External.FrameEndpoint.{FrameEndpoint}
use snet_gateway.External.FrameReader.{FrameReader, complete}
use snet_gateway.Frames.Escaped
use snet_gateway.Frames.Escaped.{escaped_class}
use snet_gateway.Frames.LengthBased
use snet_gateway.Frames.LengthBased.{length_class}
use snet_gateway.CommandResponse.{frame_0300, frame_0301}
use snet_gateway.Protocol.{
  GatewayAccessFrame, escaped, length_based, escaping, length_prefixed, data_callback,
  GatewayAccessProtocol, Sent, send, serialize, on_frame,
}

-- The frame that `Create` gives for a payload below the limit.
abbrev pub escaped_frame : Bytes → GatewayAccessFrame
escaped_frame p = escaped (record { state = Escaped.full; bytes_remaining = 0; buffer = p })

abbrev pub length_frame : Bytes → GatewayAccessFrame
length_frame p = length_based (record { state = LengthBased.full; bytes_remaining = 0; buffer = p })

module _ (w : FrameEndpoint GatewayAccessFrame) (p : GatewayAccessProtocol w) (e : w.Endpoint) where
  -- The endpoint has taken one frame.
  abbrev pub after_frame : GatewayAccessFrame → Bool → Sent w
  after_frame frame has_callback = record {
    accepted = (w.send_frame e frame has_callback).0;
    posted = false;
    protocol = record p { frame_endpoint = some (w.send_frame e frame has_callback).1 };
  }

  -- In the length-based mode, a packet of at most 4095 bytes is handed to the endpoint as one
  -- frame. The endpoint can serialize that frame, and the peer reads exactly the packet from it,
  -- whatever follows.
  pub send_length_prefixed :
      (r : FrameReader length_class) (payload rest : Bytes) (has_callback : Bool)
      → p.framing_mode ≡ length_prefixed
      → p.frame_endpoint ≡ some e
      → length payload < 4096
      → (bs : Bytes) × (send w p payload has_callback
          ≡ ok (after_frame (length_frame payload) has_callback))
        × (serialize (length_frame payload) ≡ ok bs)
        × (r.read LengthBased.create_deserialized_frame (bs ++ rest)
            ≡ complete (LengthBased.Steps.finished payload) rest)
  unfolding send serialize LengthBased.create
  send_length_prefixed r payload rest has_callback m h fits =
      let (bs, written, received, _) =
        LengthBased.RoundTrip.length_round_trip r payload rest fits in
      (bs, ground arith, ground arith, received)

  -- In the escaping-based mode, a packet of at most 4093 bytes is handed to the endpoint as one
  -- frame. The endpoint can serialize that frame, and the peer reads the request identifier 0x0302
  -- and exactly the packet from it, whatever follows.
  pub send_escaping :
      (r : FrameReader escaped_class) (payload rest : Bytes) (has_callback : Bool)
      → p.framing_mode ≡ escaping
      → p.frame_endpoint ≡ some e
      → length payload + 2 < 4096
      → (bs : Bytes) × (send w p payload has_callback
          ≡ ok (after_frame (escaped_frame (0x03 ∷ 0x02 ∷ payload)) has_callback))
        × (serialize (escaped_frame (0x03 ∷ 0x02 ∷ payload)) ≡ ok bs)
        × (r.read Escaped.create_deserialized_frame (bs ++ rest)
            ≡ complete (Escaped.Steps.finished (0x03 ∷ 0x02 ∷ payload)) rest)
  unfolding send serialize Escaped.create
  send_escaping r payload rest has_callback m h fits =
      let (bs, written, received, _) =
        Escaped.RoundTrip.escaped_round_trip r (0x03 ∷ 0x02 ∷ payload) rest (omega arith) in
      (bs, ground arith, ground arith, received)

  -- A length-based frame delivers its payload to the data callback and fixes the mode; nothing is
  -- sent back.
  pub on_frame_length :
      (payload : Bytes)
      → p.framing_mode ≢ escaping
      → p.has_on_data ≡ true
      → on_frame w p (length_frame payload)
        ≡ ok (data_callback payload ∷ [], record p { framing_mode = length_prefixed })
  unfolding on_frame LengthBased.get_payload
  on_frame_length payload m d = ground arith

  -- A data request of the escaping-based mode is acknowledged by 0x0301 first, and then its payload
  -- is delivered without the request identifier.
  pub on_frame_data_request :
      (payload : Bytes)
      → p.framing_mode ≢ length_prefixed
      → p.frame_endpoint ≡ some e
      → p.has_on_data ≡ true
      → on_frame w p (escaped_frame (0x03 ∷ 0x00 ∷ payload))
        ≡ ok (
          data_callback payload ∷ [],
          record p {
            framing_mode = escaping;
            frame_endpoint = some (w.send_frame e (escaped_frame (frame_0301.serialize)) false).1;
          },
        )
  unfolding on_frame Escaped.get_payload Escaped.create frame_0300
  on_frame_data_request payload m h d = ground arith
