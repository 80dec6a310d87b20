-- ===== src/Tests/Protocol.antt =====
-- GatewayAccessProtocol.cpp on concrete frames.
use snet_gateway.Protocol.{length_based}
use snet_gateway.Frames.Escaped.{escaped}
use snet_gateway.Prelude.{◌≡◌, refl, true, false, some, List, [], ◌∷◌, ◌++◌, Bytes, arith}
use snet_gateway.Prelude.Result.{ok}
use snet_gateway.External.FrameReader.{complete}
use snet_gateway.External.FrameStream.{plain_stream}
use snet_gateway.Frames.Escaped
use snet_gateway.Frames.LengthBased
use snet_gateway.Protocol
use snet_gateway.Protocol.{
  GatewayAccessFrame, GatewayAccessProtocol, FramingMode, unknown, escaping, length_prefixed,
  Callback, data_callback, closed_callback, on_frame, send, close, serialize,
}
use snet_gateway.Protocol.Factories.{gateway_class, mask_first_byte, frame_factories}
use snet_gateway.Protocol.Stream
use snet_gateway.Protocol.Stream.{written}
use snet_gateway.Protocol.Modes.{Outcome, Received, frame, nothing, OnlyMode, first_frame_mode}
use snet_gateway.Protocol.Delivery.{escaped_frame, length_frame, after_frame}
use snet_gateway.Tests.Instances.{recorder, escaped_reader, length_reader}

abbrev pub connected : FramingMode → GatewayAccessProtocol recorder
connected mode = record {
  framing_mode = mode;
  frame_endpoint = some [];
  has_on_data = true;
  has_on_closed = true;
}

-- A length-based frame, and then an escaped one, which closes the connection.
abbrev two_frames : List GatewayAccessFrame
two_frames = length_frame (1 ∷ []) ∷ escaped_frame (0x01 ∷ 0x00 ∷ []) ∷ []

abbrev two_outcomes : List (Outcome recorder)
two_outcomes =
    record { calls = data_callback (1 ∷ []) ∷ []; after = connected length_prefixed }
    ∷ record { calls = closed_callback ∷ []; after = connected length_prefixed }
    ∷ []

two-Received :
    Received recorder (connected unknown) two_frames two_outcomes (connected length_prefixed)
unfolding on_frame close LengthBased.get_payload
two-Received = frame refl (frame refl nothing)

first_frame_mode_example :
    (length_prefixed ≡ length_prefixed)
    × OnlyMode recorder length_prefixed (connected unknown) two_frames two_outcomes
first_frame_mode_example = first_frame_mode recorder refl two-Received

send_length_prefixed_example :
    (bs : Bytes) × (send recorder (connected length_prefixed) (7 ∷ 8 ∷ []) true
      ≡ ok (after_frame recorder (connected length_prefixed) [] (length_frame (7 ∷ 8 ∷ [])) true))
    × (serialize (length_frame (7 ∷ 8 ∷ [])) ≡ ok bs)
    × (length_reader.read LengthBased.create_deserialized_frame (bs ++ 1 ∷ [])
        ≡ complete (LengthBased.Steps.finished (7 ∷ 8 ∷ [])) (1 ∷ []))
send_length_prefixed_example =
    Protocol.Delivery.send_length_prefixed recorder (connected length_prefixed) [] length_reader
      (7 ∷ 8 ∷ []) (1 ∷ []) true refl refl (omega arith)

send_escaping_example :
    (bs : Bytes) × (send recorder (connected escaping) (0x7E ∷ []) false
      ≡ ok (
          after_frame recorder
            (connected escaping)
            []
            (escaped_frame (0x03 ∷ 0x02 ∷ 0x7E ∷ []))
            false))
    × (serialize (escaped_frame (0x03 ∷ 0x02 ∷ 0x7E ∷ [])) ≡ ok bs)
    × (escaped_reader.read Escaped.create_deserialized_frame (bs ++ 1 ∷ [])
        ≡ complete (Escaped.Steps.finished (0x03 ∷ 0x02 ∷ 0x7E ∷ [])) (1 ∷ []))
send_escaping_example =
    Protocol.Delivery.send_escaping recorder (connected escaping) [] escaped_reader (0x7E ∷ [])
      (1 ∷ []) false refl refl (omega arith)

-- A data request of the escaping-based mode, and two packets of the length-based mode.
abbrev mixed_frames : List GatewayAccessFrame
mixed_frames =
    escaped_frame (0x03 ∷ 0x00 ∷ 0x7E ∷ []) ∷ length_frame (1 ∷ 2 ∷ []) ∷ length_frame [] ∷ []

stream_round_trip_example :
    (bs : Bytes) × (written mixed_frames ≡ ok bs)
    × ((plain_stream gateway_class mask_first_byte frame_factories).frames bs ≡ mixed_frames)
stream_round_trip_example =
    Stream.stream_round_trip (plain_stream gateway_class mask_first_byte frame_factories)
      mixed_frames ((_, refl, omega arith), ((_, refl, omega arith), ((_, refl, omega arith), tt)))
