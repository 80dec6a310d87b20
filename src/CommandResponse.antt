-- ===== src/CommandResponse.antt =====
-- GatewayAccessProtocol/CommandResponseFrames: the two-byte request identifiers of the
-- escaping-based mode. An object is the record of what its virtual functions give.
use snet_gateway.Prelude.{ℕ, [], ◌∷◌, Bytes, length, drop, leb, if◌then◌else◌}
use snet_gateway.Prelude.Result.{Result, ok, fault, out_of_range}

-- `CommandResponseFrame`: `m_RequestId`, `Serialize` and `GetPayload`.
pub record CommandResponseFrame : Type 0 where
  pub request_id : ℕ
  pub serialize : Bytes
  pub get_payload : Result Bytes

-- `Serialize` of the base class.
abbrev serialize_base : Bytes
serialize_base = []

abbrev pub frame_0100 : CommandResponseFrame
frame_0100 = record { request_id = 0x0100; serialize = serialize_base; get_payload = ok [] }

abbrev pub frame_0101 : CommandResponseFrame
frame_0101 = record {
  request_id = 0x0101;
  serialize = 0x01 ∷ 0x01 ∷ 0x00 ∷ 0x00 ∷ [];
  get_payload = ok [];
}

abbrev pub frame_0110 : CommandResponseFrame
frame_0110 = record { request_id = 0x0110; serialize = serialize_base; get_payload = ok [] }

abbrev pub frame_0111 : CommandResponseFrame
frame_0111 = record {
  request_id = 0x0111;
  serialize = 0x01 ∷ 0x11 ∷ 0x00 ∷ 0x00 ∷ [];
  get_payload = ok [];
}

-- The range from `begin() + 2` needs two bytes before it.
behind_request_id : Bytes → Result Bytes
behind_request_id m_payload =
    if leb 2 (length m_payload) then ok (drop 2 m_payload) else fault out_of_range

unfoldable pub frame_0300 : Bytes → CommandResponseFrame
unfolding behind_request_id
frame_0300 m_payload = record {
  request_id = 0x0300;
  serialize = serialize_base;
  get_payload = behind_request_id m_payload;
}

abbrev pub frame_0301 : CommandResponseFrame
frame_0301 = record {
  request_id = 0x0301;
  serialize = 0x03 ∷ 0x01 ∷ 0x00 ∷ 0x00 ∷ [];
  get_payload = ok [];
}

abbrev pub frame_0302 : Bytes → CommandResponseFrame
frame_0302 m_payload = record {
  request_id = 0x0302;
  serialize = 0x03 ∷ 0x02 ∷ m_payload;
  get_payload = ok m_payload;
}
