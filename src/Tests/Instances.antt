-- ===== src/Tests/Instances.antt =====
-- Concrete libraries for the tests: messages with the byte layout of the examples in
-- doc/protocol.md, and an endpoint that remembers the frames that it is handed.
use snet_gateway.Prelude.{
  ℕ, ◌+◌, ◌*◌, ◌/◌, ◌%◌, ◌^◌, refl, Bool, true, false, Option, none, some, List, [], ◌∷◌, ◌++◌,
  Bytes, arith, ◌≡◌, length, ◌≤◌,
}
use snet_gateway.External.FrameEndpoint.{FrameEndpoint}
use snet_gateway.External.FrameReader.{FrameReader, plain_reader}
use snet_gateway.External.Message.{SnetServiceMessage, MessageLaws, MessageSizes}
use snet_gateway.Frames.Escaped.{escaped_class}
use snet_gateway.Frames.LengthBased.{length_class}
use snet_gateway.Protocol.{GatewayAccessFrame}

pub record Packet : Type 0 where
  pub src_service_id : ℕ
  pub dst_service_id : ℕ
  pub token : ℕ
  pub src_ssa : ℕ
  pub dst_ssa : ℕ
  pub on_air_arq : Bool
  pub payload : Bytes

abbrev pub two_bytes : ℕ → Bytes
two_bytes n = (n / 2 ^ 8) ∷ (n % 2 ^ 8) ∷ []

abbrev arq_byte : Bool → ℕ
arq_byte true = 1
arq_byte false = 0

abbrev pub serialize : Packet → Bytes
serialize p =
    arq_byte p.on_air_arq
    ∷ 0
    ∷ (two_bytes p.src_ssa
        ++ two_bytes p.dst_ssa
        ++ 0 ∷ p.src_service_id ∷ p.dst_service_id ∷ 0 ∷ p.token ∷ p.payload)

abbrev pub deserialize : Bytes → Option Packet
deserialize (f ∷ _ ∷ s1 ∷ s0 ∷ d1 ∷ d0 ∷ _ ∷ ss ∷ ds ∷ _ ∷ t ∷ p) = some (record {
  src_service_id = ss;
  dst_service_id = ds;
  token = t;
  src_ssa = s1 * 2 ^ 8 + s0;
  dst_ssa = d1 * 2 ^ 8 + d0;
  on_air_arq = false;
  payload = p;
})
deserialize _ = none

abbrev pub packets : SnetServiceMessage
packets = record {
  Message = Packet;
  empty = record {
    src_service_id = 0;
    dst_service_id = 0;
    token = 0;
    src_ssa = 0;
    dst_ssa = 0;
    on_air_arq = false;
    payload = [];
  };
  create = λ s d t a b f. record {
    src_service_id = s;
    dst_service_id = d;
    token = t;
    src_ssa = a;
    dst_ssa = b;
    on_air_arq = f;
    payload = [];
  };
  src_ssa = λ x. x.src_ssa;
  dst_ssa = λ x. x.dst_ssa;
  src_service_id = λ x. x.src_service_id;
  dst_service_id = λ x. x.dst_service_id;
  token = λ x. x.token;
  payload = λ x. x.payload;
  set_src_ssa = λ a x. record x { src_ssa = a };
  set_payload = λ p x. record x { payload = p };
  set_on_air_arq = λ f x. record x { on_air_arq = f };
  serialize = serialize;
  deserialize = deserialize;
}

pub packets-laws : MessageLaws packets
packets-laws = record {
  empty_ne_assignment = omega arith;
  empty_ne_subscription = omega arith;
  src_ssa-create = λ s d t a b f. refl;
  dst_ssa-create = λ s d t a b f. refl;
  src_service_id-create = λ s d t a b f. refl;
  dst_service_id-create = λ s d t a b f. refl;
  token-create = λ s d t a b f. refl;
  payload-set_payload = λ p x. refl;
  src_ssa-set_payload = λ p x. refl;
  dst_ssa-set_payload = λ p x. refl;
  src_service_id-set_payload = λ p x. refl;
  dst_service_id-set_payload = λ p x. refl;
  token-set_payload = λ p x. refl;
  src_ssa-set_src_ssa = λ a x. refl;
  dst_ssa-set_src_ssa = λ a x. refl;
  src_service_id-set_src_ssa = λ a x. refl;
  payload-set_src_ssa = λ a x. refl;
}

deserialize-size :
    (bytes : Bytes) (x : Packet) → deserialize bytes ≡ some x → 11 + length x.payload ≤ length bytes
deserialize-size [] x e = cc
deserialize-size (_ ∷ []) x e = cc
deserialize-size (_ ∷ _ ∷ []) x e = cc
deserialize-size (_ ∷ _ ∷ _ ∷ []) x e = cc
deserialize-size (_ ∷ _ ∷ _ ∷ _ ∷ []) x e = cc
deserialize-size (_ ∷ _ ∷ _ ∷ _ ∷ _ ∷ []) x e = cc
deserialize-size (_ ∷ _ ∷ _ ∷ _ ∷ _ ∷ _ ∷ []) x e = cc
deserialize-size (_ ∷ _ ∷ _ ∷ _ ∷ _ ∷ _ ∷ _ ∷ []) x e = cc
deserialize-size (_ ∷ _ ∷ _ ∷ _ ∷ _ ∷ _ ∷ _ ∷ _ ∷ []) x e = cc
deserialize-size (_ ∷ _ ∷ _ ∷ _ ∷ _ ∷ _ ∷ _ ∷ _ ∷ _ ∷ []) x e = cc
deserialize-size (_ ∷ _ ∷ _ ∷ _ ∷ _ ∷ _ ∷ _ ∷ _ ∷ _ ∷ _ ∷ []) x e = cc
deserialize-size (f ∷ _ ∷ s1 ∷ s0 ∷ d1 ∷ d0 ∷ _ ∷ ss ∷ ds ∷ _ ∷ t ∷ p) x e = ground arith

pub packets-sizes : MessageSizes packets
packets-sizes = record {
  header_size = 11;
  header_fits = omega arith;
  length-serialize = λ x. omega arith;
  length-deserialize = deserialize-size;
}

-- Every frame is taken.
abbrev pub recorder : FrameEndpoint GatewayAccessFrame
recorder = record {
  Endpoint = List GatewayAccessFrame;
  start = λ e. e;
  close = λ e. e;
  send_frame = λ e f has_callback. (true, e ++ f ∷ []);
}

abbrev pub escaped_reader : FrameReader escaped_class
escaped_reader = plain_reader escaped_class

abbrev pub length_reader : FrameReader length_class
length_reader = plain_reader length_class
