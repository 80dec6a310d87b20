-- ===== src/Tests/Frames.antt =====
-- GatewayAccessFrameEscaped.h and GatewayAccessFrameLength.h on concrete bytes.
use snet_gateway.Prelude.{ℕ, ◌<◌, ◌≡◌, refl, [], ◌∷◌, ◌++◌, Bytes, arith, length, ◌+◌, ◌%◌}
use snet_gateway.Prelude.Result.{ok, ◌>>=◌}
use snet_gateway.External.FrameReader.{plain_reader, complete, violation}
use snet_gateway.Frames.Escaped
use snet_gateway.Frames.LengthBased
use snet_gateway.Tests.Instances.{escaped_reader, length_reader}

-- 7D and 7E are escaped on the wire, and come back.
abbrev tricky : Bytes
tricky = 0x7E ∷ 0x10 ∷ 0x7D ∷ []

abbrev tricky_wire : Bytes
tricky_wire = 0x7E ∷ 0x7D ∷ 0x5E ∷ 0x10 ∷ 0x7D ∷ 0x5D ∷ 0x7E ∷ []

serialize_tricky : (Escaped.create tricky >>= Escaped.serialize) ≡ ok tricky_wire
unfolding Escaped.create Escaped.serialize
serialize_tricky = refl

read_tricky :
    escaped_reader.read Escaped.create_deserialized_frame (tricky_wire ++ 0x80 ∷ [])
    ≡ complete (Escaped.Steps.finished tricky) (0x80 ∷ [])
unfolding plain_reader Escaped.create_deserialized_frame Escaped.deserialize
read_tricky = refl

-- An invalid byte after the escape character is a violation.
read_invalid :
    escaped_reader.read Escaped.create_deserialized_frame (0x7E ∷ 0x7D ∷ 0x7D ∷ []) ≡ violation
unfolding plain_reader Escaped.create_deserialized_frame Escaped.deserialize
read_invalid = refl

-- The empty frame of doc/protocol.md.
read_empty :
    length_reader.read LengthBased.create_deserialized_frame (0x80 ∷ 0x00 ∷ [])
    ≡ complete (LengthBased.Steps.finished []) []
unfolding plain_reader LengthBased.create_deserialized_frame LengthBased.deserialize
read_empty = refl

abbrev three_wire : Bytes
three_wire = 0x80 ∷ 0x03 ∷ 1 ∷ 2 ∷ 3 ∷ []

read_three :
    length_reader.read LengthBased.create_deserialized_frame (three_wire ++ 9 ∷ [])
    ≡ complete (LengthBased.Steps.finished (1 ∷ 2 ∷ 3 ∷ [])) (9 ∷ [])
unfolding plain_reader LengthBased.create_deserialized_frame LengthBased.deserialize
read_three = refl

escaped_round_trip_example :
    (bs : Bytes) × ((Escaped.create tricky >>= Escaped.serialize) ≡ ok bs)
    × (escaped_reader.read Escaped.create_deserialized_frame (bs ++ 5 ∷ [])
        ≡ complete (Escaped.Steps.finished tricky) (5 ∷ []))
    × (Escaped.get_payload (Escaped.Steps.finished tricky) ≡ ok tricky)
escaped_round_trip_example =
    Escaped.RoundTrip.escaped_round_trip escaped_reader tricky (5 ∷ []) (omega arith)

length_round_trip_example :
    (bs : Bytes) × ((LengthBased.create tricky >>= LengthBased.serialize) ≡ ok bs)
    × (length_reader.read LengthBased.create_deserialized_frame (bs ++ 5 ∷ [])
        ≡ complete (LengthBased.Steps.finished tricky) (5 ∷ []))
    × (LengthBased.get_payload (LengthBased.Steps.finished tricky) ≡ ok tricky)
length_round_trip_example =
    LengthBased.RoundTrip.length_round_trip length_reader tricky (5 ∷ []) (omega arith)

escaped_soundness_example :
    (p : Bytes) × (written : Bytes) × (Escaped.get_payload (Escaped.Steps.finished tricky) ≡ ok p)
    × (length p < 4096)
    × ((Escaped.create p >>= Escaped.serialize) ≡ ok written)
    × (tricky_wire ++ 0x80 ∷ [] ≡ written ++ 0x80 ∷ [])
escaped_soundness_example =
    Escaped.Soundness.escaped_soundness escaped_reader (tricky_wire ++ 0x80 ∷ []) (0x80 ∷ [])
      (Escaped.Steps.finished tricky) read_tricky

length_soundness_example :
    (b0 b1 : ℕ) × (p : Bytes) × (three_wire ++ 9 ∷ [] ≡ b0 ∷ b1 ∷ (p ++ 9 ∷ []))
    × (LengthBased.get_payload (LengthBased.Steps.finished (1 ∷ 2 ∷ 3 ∷ [])) ≡ ok p)
    × (length p < 4096)
    × ((LengthBased.create p >>= LengthBased.serialize) ≡ ok ((0x80 + b0 % 16) ∷ b1 ∷ p))
length_soundness_example =
    LengthBased.Soundness.length_soundness length_reader (three_wire ++ 9 ∷ []) (9 ∷ [])
      (LengthBased.Steps.finished (1 ∷ 2 ∷ 3 ∷ [])) (omega arith) read_three

abbrev opened : Escaped.GatewayAccessFrameEscaped
opened = Escaped.Steps.waiting Escaped.unescaped (7 ∷ [])

escaped_read-IsSafe_example :
    Escaped.Bounds.IsSafe (escaped_reader.read opened (0x7D ∷ 0x5E ∷ 0x7E ∷ 3 ∷ []))
escaped_read-IsSafe_example =
    Escaped.Bounds.escaped_read-IsSafe escaped_reader (0x7D ∷ 0x5E ∷ 0x7E ∷ 3 ∷ []) opened
      (record { is_open = tt; requests = refl; fits = omega arith })

length_read-IsSafe_example :
    LengthBased.Bounds.IsSafe (length_reader.read (LengthBased.Steps.half_header 0x80) (2 ∷ 6 ∷ []))
length_read-IsSafe_example =
    LengthBased.Bounds.length_read-IsSafe length_reader (2 ∷ 6 ∷ [])
      (LengthBased.Steps.half_header 0x80) (omega arith)
      (record { requests = omega arith; is_open = omega arith })

serialize_finished : Escaped.serialize (Escaped.Steps.finished tricky) ≡ ok tricky_wire
unfolding Escaped.serialize
serialize_finished = refl
