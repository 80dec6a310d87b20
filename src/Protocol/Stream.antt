-- ===== src/Protocol/Stream.antt =====
-- GatewayAccessProtocol.cpp and GatewayAccessFrames: a stream of frames of both kinds.
use snet_gateway.Prelude.{◌<◌, ◌≡◌, refl, ap, ◌∙◌, List, [], ◌∷◌, ◌++◌, Bytes, arith, length, All}
use snet_gateway.Prelude.Result.{Result, ok, ◌>>=◌}
use snet_gateway.External.FrameReader.{plain_reader}
use snet_gateway.External.FrameStream.{FrameStream}
use snet_gateway.External.FrameEmbedding.{read-embed, embed_reading}
use snet_gateway.Frames.Escaped
use snet_gateway.Frames.Escaped.{escaped_class}
use snet_gateway.Frames.LengthBased
use snet_gateway.Frames.LengthBased.{length_class}
use snet_gateway.Protocol.{GatewayAccessFrame, escaped, length_based, serialize}
use snet_gateway.Protocol.Factories.{
  gateway_class, mask_first_byte, frame_factories, escaped-IsEmbedding, length_based-IsEmbedding,
}

-- A frame that is complete, as `Create` makes it and as it is read.
abbrev pub IsComplete : GatewayAccessFrame → Type 0
IsComplete (escaped f) = (p : Bytes) × (f ≡ Escaped.Steps.finished p) × (length p < 4096)
IsComplete (length_based f) = (p : Bytes) × (f ≡ LengthBased.Steps.finished p) × (length p < 4096)

-- The bytes of frames that are sent one after the other.
pub written : List GatewayAccessFrame → Result Bytes
written [] = ok []
written (f ∷ fs) = do first ← serialize f; rest ← written fs; ok (first ++ rest)

module _ (s : FrameStream gateway_class mask_first_byte frame_factories) where
  frames-escaped :
      (p rest : Bytes)
      → length p < 4096
      → s.frames (Escaped.Wire.wire p ++ rest) ≡ escaped (Escaped.Steps.finished p) ∷ s.frames rest
  unfolding gateway_class Escaped.create_deserialized_frame
  frames-escaped p rest h =
      s.frames_complete 0x7E (Escaped.Wire.escape_all p ++ 0x7E ∷ [] ++ rest) rest
        (escaped Escaped.create_deserialized_frame) (escaped (Escaped.Steps.finished p)) refl
        (omega arith)
        (read-embed escaped escaped_class gateway_class (plain_reader escaped_class) s.reader
            escaped-IsEmbedding _ _
          ∙ ap (embed_reading escaped)
              (Escaped.RoundTrip.read-wire (plain_reader escaped_class) p rest h))

  frames-length_based :
      (p rest : Bytes)
      → length p < 4096
      → s.frames (LengthBased.RoundTrip.wire p ++ rest)
        ≡ length_based (LengthBased.Steps.finished p) ∷ s.frames rest
  unfolding gateway_class LengthBased.create_deserialized_frame
  frames-length_based p rest h =
      s.frames_complete (LengthBased.RoundTrip.upper (length p)) _ rest
        (length_based LengthBased.create_deserialized_frame)
        (length_based (LengthBased.Steps.finished p)) (ground arith) (omega arith)
        (read-embed length_based length_class gateway_class (plain_reader length_class) s.reader
            length_based-IsEmbedding _ _
          ∙ ap (embed_reading length_based)
              (LengthBased.RoundTrip.read-wire (plain_reader length_class) p rest h))

  -- One frame in front of others.
  Leads : GatewayAccessFrame → Type 0
  Leads f =
      (bytes : Bytes) × (serialize f ≡ ok bytes)
      × ((rest : Bytes) → s.frames (bytes ++ rest) ≡ f ∷ s.frames rest)

  IsComplete-Leads : (f : GatewayAccessFrame) → IsComplete f → Leads f
  unfolding Leads serialize
  IsComplete-Leads (escaped f) (p, whole, fits) = (
    Escaped.Wire.wire p,
    rw whole (Escaped.Wire.serialize-finished p),
    λ rest. rw whole (frames-escaped p rest fits),
  )
  IsComplete-Leads (length_based f) (p, whole, fits) = (
    LengthBased.RoundTrip.wire p,
    rw whole (LengthBased.RoundTrip.serialize-finished p),
    λ rest. rw whole (frames-length_based p rest fits),
  )

  -- Complete frames of both kinds, in any order, can be sent one after the other, and a peer that
  -- reads the stream of their bytes gets exactly these frames, in the order in which they were
  -- sent: the first byte of each tells its kind, and none is lost, split or merged.
  pub stream_round_trip :
      (fs : List GatewayAccessFrame)
      → All IsComplete fs
      → (bs : Bytes) × (written fs ≡ ok bs) × (s.frames bs ≡ fs)
  unfolding written Leads
  stream_round_trip [] h = ([], refl, s.frames_end)
  stream_round_trip (f ∷ fs) (whole, h) =
      let (bs, sent, read) = stream_round_trip fs h in
      let (first, wrote, leads) = IsComplete-Leads f whole in
      (first ++ bs, rw (wrote, sent) refl, leads bs ∙ ap (◌∷◌ f) read)
