-- ===== src/External/Message.antt =====
-- `SnetServiceMessage` (libs/snet-devel, a git submodule): the constructor, accessors, `Serialize`
-- and `Deserialize`, as far as the gateway calls them.
use snet_gateway.Prelude.{ℕ, ◌+◌, ◌≤◌, Bool, Option, some, Bytes, length, ◌≡◌, ◌≢◌}

pub record SnetServiceMessage : Type 1 where
  pub Message : Type 0
  -- `SnetServiceMessage()`, the empty reply.
  pub empty : Message
  -- Source and destination service, token, source and destination SSA, and the last flag.
  pub create : ℕ → ℕ → ℕ → ℕ → ℕ → Bool → Message
  pub src_ssa : Message → ℕ
  pub dst_ssa : Message → ℕ
  pub src_service_id : Message → ℕ
  pub dst_service_id : Message → ℕ
  pub token : Message → ℕ
  pub payload : Message → Bytes
  pub set_src_ssa : ℕ → Message → Message
  pub set_payload : Bytes → Message → Message
  pub set_on_air_arq : Bool → Message → Message
  pub serialize : Message → Bytes
  -- `none` is a call that returns false.
  pub deserialize : Bytes → Option Message

-- What the gateway relies on: constructor, setters and getters go together, and the empty message
-- is none of the replies that the two services make.
pub record MessageLaws (m : SnetServiceMessage) : Type 0 where
  pub empty_ne_assignment : m.src_service_id m.empty ≢ 0xAE
  pub empty_ne_subscription : m.src_service_id m.empty ≢ 0xB0
  pub src_ssa-create : (s d t a b : ℕ) (f : Bool) → m.src_ssa (m.create s d t a b f) ≡ a
  pub dst_ssa-create : (s d t a b : ℕ) (f : Bool) → m.dst_ssa (m.create s d t a b f) ≡ b
  pub src_service_id-create :
      (s d t a b : ℕ) (f : Bool) → m.src_service_id (m.create s d t a b f) ≡ s
  pub dst_service_id-create :
      (s d t a b : ℕ) (f : Bool) → m.dst_service_id (m.create s d t a b f) ≡ d
  pub token-create : (s d t a b : ℕ) (f : Bool) → m.token (m.create s d t a b f) ≡ t
  pub payload-set_payload : (p : Bytes) (x : m.Message) → m.payload (m.set_payload p x) ≡ p
  pub src_ssa-set_payload :
      (p : Bytes) (x : m.Message) → m.src_ssa (m.set_payload p x) ≡ m.src_ssa x
  pub dst_ssa-set_payload :
      (p : Bytes) (x : m.Message) → m.dst_ssa (m.set_payload p x) ≡ m.dst_ssa x
  pub src_service_id-set_payload :
      (p : Bytes) (x : m.Message) → m.src_service_id (m.set_payload p x) ≡ m.src_service_id x
  pub dst_service_id-set_payload :
      (p : Bytes) (x : m.Message) → m.dst_service_id (m.set_payload p x) ≡ m.dst_service_id x
  pub token-set_payload : (p : Bytes) (x : m.Message) → m.token (m.set_payload p x) ≡ m.token x
  pub src_ssa-set_src_ssa : (a : ℕ) (x : m.Message) → m.src_ssa (m.set_src_ssa a x) ≡ a
  pub dst_ssa-set_src_ssa : (a : ℕ) (x : m.Message) → m.dst_ssa (m.set_src_ssa a x) ≡ m.dst_ssa x
  pub src_service_id-set_src_ssa :
      (a : ℕ) (x : m.Message) → m.src_service_id (m.set_src_ssa a x) ≡ m.src_service_id x
  pub payload-set_src_ssa : (a : ℕ) (x : m.Message) → m.payload (m.set_src_ssa a x) ≡ m.payload x

-- The sizes that the gateway relies on: a message is serialized as a header of at most 4000 bytes and
-- its payload, and a message that is read has its header and its payload in the bytes.
pub record MessageSizes (m : SnetServiceMessage) : Type 0 where
  pub header_size : ℕ
  pub header_fits : header_size ≤ 4000
  pub length-serialize :
      (x : m.Message) → length (m.serialize x) ≤ header_size + length (m.payload x)
  pub length-deserialize :
      (bytes : Bytes) (x : m.Message)
      → m.deserialize bytes ≡ some x
      → header_size + length (m.payload x) ≤ length bytes
