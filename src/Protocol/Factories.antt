-- ===== src/Protocol/Factories.antt =====
-- GatewayAccessProtocol.cpp, the constructor: the frames that the endpoint makes for its stream, and
-- what it calls on them through the base class `Frame`.
use snet_gateway.Prelude.{ℕ, ◌*◌, ◌/◌, ◌%◌, ◌^◌, arith, refl, Bool, List, [], ◌∷◌, Bytes}
use snet_gateway.Prelude.Result.{Result, ok, ◌>>=◌}
use snet_gateway.External.FrameReader.{FrameClass}
use snet_gateway.External.FrameStream.{FrameFactory}
use snet_gateway.External.FrameEmbedding.{IsEmbedding}
use snet_gateway.Frames.Escaped
use snet_gateway.Frames.Escaped.{GatewayAccessFrameEscaped, escaped_class}
use snet_gateway.Frames.LengthBased
use snet_gateway.Frames.LengthBased.{GatewayAccessFrameLength, length_class}
use snet_gateway.Protocol.{GatewayAccessFrame, escaped, length_based}

-- `0xF0`: only the upper nibble of a first byte is looked at.
abbrev pub mask_first_byte : ℕ → ℕ
mask_first_byte b = b / 2 ^ 4 % 2 ^ 4 * 2 ^ 4

-- `GATEWAY_ACCESS_FRAME_ESCAPED` and `GATEWAY_ACCESS_FRAME_LENGTH`, with their factories.
abbrev pub frame_factories : List (FrameFactory GatewayAccessFrame)
frame_factories =
    record { identifier = 0x7E; create = escaped Escaped.create_deserialized_frame }
    ∷ record { identifier = 0x80; create = length_based LengthBased.create_deserialized_frame }
    ∷ []

-- The virtual `Deserialize`.
deserialize : GatewayAccessFrame → Result (Bool × GatewayAccessFrame)
deserialize (escaped f) = do (valid, g) ← Escaped.deserialize f; ok (valid, escaped g)
deserialize (length_based f) = do (valid, g) ← LengthBased.deserialize f; ok (valid, length_based g)

abbrev bytes_remaining : GatewayAccessFrame → ℕ
bytes_remaining (escaped f) = f.bytes_remaining
bytes_remaining (length_based f) = f.bytes_remaining

abbrev buffer : GatewayAccessFrame → Bytes
buffer (escaped f) = f.buffer
buffer (length_based f) = f.buffer

abbrev set_members : ℕ → Bytes → GatewayAccessFrame → GatewayAccessFrame
set_members n bytes (escaped f) = escaped (escaped_class.set_members n bytes f)
set_members n bytes (length_based f) = length_based (length_class.set_members n bytes f)

unfoldable pub gateway_class : FrameClass GatewayAccessFrame
unfolding deserialize
gateway_class = record {
  bytes_remaining = bytes_remaining;
  buffer = buffer;
  set_members = set_members;
  deserialize = deserialize;
}

pub escaped-IsEmbedding : IsEmbedding escaped escaped_class gateway_class
unfolding gateway_class deserialize
escaped-IsEmbedding = record { remaining = λ f. refl; byte = λ f b. ground arith }

pub length_based-IsEmbedding : IsEmbedding length_based length_class gateway_class
unfolding gateway_class deserialize
length_based-IsEmbedding = record { remaining = λ f. refl; byte = λ f b. ground arith }
