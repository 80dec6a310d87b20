-- ===== src/Frames/LengthBased.antt =====
-- GatewayAccessFrameLength.h. `buffer` is `m_Buffer`, its last element the back of the vector.
-- Shifts and masks are written as `/` and `%`.
pub mod Steps
pub mod RoundTrip
pub mod Soundness
pub mod Bounds
use snet_gateway.Prelude.{
  ℕ, ◌+◌, ◌-◌, ◌*◌, ◌/◌, ◌%◌, ◌^◌, Bool, true, false, Option, none, some, [], ◌∷◌, ◌++◌, Bytes,
  length, get_elem?, ltb, ◌==◌, if◌then◌else◌,
}
use snet_gateway.Prelude.Result.{
  Result, ok, out_of_range, assertion_failed, fault, ◌>>=◌, ◌>>◌, check, or_fault,
}
use snet_gateway.External.FrameReader.{FrameClass}

-- `E_DESERIALIZE`
pub data Deserialization : Type 0 where
  error header awaiting_data full : Deserialization

pub record GatewayAccessFrameLength : Type 0 where
  pub state : Deserialization
  pub bytes_remaining : ℕ
  pub buffer : Bytes

abbrev pub mtu : ℕ
mtu = 4096

-- `Create`. The base class's constructor sets `m_BytesRemaining`, which is not read after it.
unfoldable pub create : Bytes → Result GatewayAccessFrameLength
create payload = do
  check (ltb (length payload) mtu)
  ok (record { state = full; bytes_remaining = 0; buffer = payload })

unfoldable pub create_deserialized_frame : GatewayAccessFrameLength
create_deserialized_frame = record { state = header; bytes_remaining = 2; buffer = [] }

abbrev is_full : Deserialization → Bool
is_full full = true
is_full _ = false

unfoldable pub get_payload : GatewayAccessFrameLength → Result Bytes
get_payload f = do check (is_full f.state); ok f.buffer

-- The header of a payload of `size` bytes: `size` is narrowed to 16 bits, and each byte to 8.
header_bytes : ℕ → Bytes
header_bytes size =
    let nbr_of_bytes = size % 2 ^ 16 in
    ((0x80 + nbr_of_bytes / 2 ^ 8 % 2 ^ 4) % 2 ^ 8) ∷ (nbr_of_bytes % 2 ^ 8) ∷ []

unfoldable pub serialize : GatewayAccessFrameLength → Result Bytes
unfolding header_bytes
serialize f = do check (is_full f.state); ok (header_bytes (length f.buffer) ++ f.buffer)

-- `a_Byte & GATEWAY_ACCESS_FRAME_MASK`
abbrev pub masked : ℕ → ℕ
masked b = b / 0x80 % 2 * 0x80

-- The size that the two bytes of a header announce.
abbrev pub announced : ℕ → ℕ → ℕ
announced b0 b1 = b0 % 2 ^ 4 * 2 ^ 8 + b1

pub on_header : GatewayAccessFrameLength → ℕ → ℕ → Result (Bool × GatewayAccessFrameLength)
on_header f b0 b1 =
    if masked b0 == 0x80
    then ok (
      true,
      record {
        state = if announced b0 b1 == 0 then full else awaiting_data;
        bytes_remaining = announced b0 b1;
        buffer = [];
      },
    )
    else ok (false, record f { state = error })

dispatch : Deserialization → GatewayAccessFrameLength → Result (Bool × GatewayAccessFrameLength)
unfolding on_header
dispatch header f = do
  check (length f.buffer == 2)
  b0 ← or_fault out_of_range (get_elem? f.buffer 0)
  b1 ← or_fault out_of_range (get_elem? f.buffer 1)
  on_header f b0 b1
dispatch awaiting_data f = ok (true, record f { state = full })
dispatch error f = fault assertion_failed
dispatch full f = fault assertion_failed

unfoldable pub deserialize : GatewayAccessFrameLength → Result (Bool × GatewayAccessFrameLength)
unfolding dispatch
deserialize f = dispatch f.state f

-- The members of the base class `Frame`, and the virtual `Deserialize`.
abbrev pub length_class : FrameClass GatewayAccessFrameLength
length_class = record {
  bytes_remaining = λ f. f.bytes_remaining;
  buffer = λ f. f.buffer;
  set_members = λ n bytes f. record f { bytes_remaining = n; buffer = bytes };
  deserialize = deserialize;
}
