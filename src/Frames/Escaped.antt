-- ===== src/Frames/Escaped.antt =====
-- GatewayAccessFrameEscaped.h. `buffer` is `m_Buffer`, its last element the back of the vector.
pub mod Wire
pub mod Steps
pub mod RoundTrip
pub mod Soundness
pub mod Bounds
use snet_gateway.Prelude.{
  ℕ, ◌+◌, Bool, true, false, Option, none, some, [], ◌∷◌, ◌++◌, Bytes, length, ltb, leb, ◌-◌, ◌||◌,
  ◌==◌, if◌then◌else◌,
}
use snet_gateway.Prelude.Result.{
  Result, ok, out_of_range, assertion_failed, fault, ◌>>=◌, ◌>>◌, check, or_fault,
}
use snet_gateway.External.FrameReader.{FrameClass}

-- `E_DESERIALIZE`
pub data Deserialization : Type 0 where
  error framestart unescaped escaped full : Deserialization

pub record GatewayAccessFrameEscaped : Type 0 where
  pub state : Deserialization
  pub bytes_remaining : ℕ
  pub buffer : Bytes

abbrev pub mtu : ℕ
mtu = 4096

-- `Create`. The base class's constructor sets `m_BytesRemaining`, which is not read after it.
unfoldable pub create : Bytes → Result GatewayAccessFrameEscaped
create payload = do
  check (ltb (length payload) mtu)
  ok (record { state = full; bytes_remaining = 0; buffer = payload })

unfoldable pub create_deserialized_frame : GatewayAccessFrameEscaped
create_deserialized_frame = record { state = framestart; bytes_remaining = 1; buffer = [] }

abbrev is_full : Deserialization → Bool
is_full full = true
is_full _ = false

unfoldable pub get_payload : GatewayAccessFrameEscaped → Result Bytes
get_payload f = do check (is_full f.state); ok f.buffer

-- The first loop of `Serialize`: the memory that it reserves beyond the payload's.
nbr_of_bytes_to_escape : ℕ → Bytes → ℕ
nbr_of_bytes_to_escape n [] = n
nbr_of_bytes_to_escape n (b ∷ bs) =
    nbr_of_bytes_to_escape (if b == 0x7D || b == 0x7E then n + 1 else n) bs

pub reserved_size : GatewayAccessFrameEscaped → ℕ
unfolding nbr_of_bytes_to_escape
reserved_size f = length f.buffer + nbr_of_bytes_to_escape 2 f.buffer

-- What one round of the second loop appends.
pub escape : ℕ → Bytes
escape b = if b == 0x7D then 0x7D ∷ 0x5D ∷ [] else if b == 0x7E then 0x7D ∷ 0x5E ∷ [] else b ∷ []

append_escaped : Bytes → Bytes → Bytes
unfolding escape
append_escaped out [] = out
append_escaped out (b ∷ bs) = append_escaped (out ++ escape b) bs

unfoldable pub serialize : GatewayAccessFrameEscaped → Result Bytes
unfolding append_escaped
serialize f = do check (is_full f.state); ok (append_escaped (0x7E ∷ []) f.buffer ++ 0x7E ∷ [])

-- A vector without its back, and its back: `m_Buffer[m_Buffer.size() - 1]`.
split_from : ℕ → Bytes → Bytes × ℕ
split_from b [] = ([], b)
split_from b (c ∷ bs) = let (front, last) = split_from c bs in (b ∷ front, last)

split_last : Bytes → Option (Bytes × ℕ)
unfolding split_from
split_last [] = none
split_last (b ∷ bs) = some (split_from b bs)

refuse : GatewayAccessFrameEscaped → Result (Bool × GatewayAccessFrameEscaped)
refuse f = ok (false, record f { state = error })

-- The three live cases of the `switch`, at the front and the last byte of the buffer.
on_framestart : GatewayAccessFrameEscaped → Bytes → ℕ → Result (Bool × GatewayAccessFrameEscaped)
unfolding refuse
on_framestart f front last =
    if last == 0x7E
    then ok (true, record f { state = unescaped; bytes_remaining = 1; buffer = front })
    else refuse f

on_unescaped : GatewayAccessFrameEscaped → Bytes → ℕ → Result (Bool × GatewayAccessFrameEscaped)
unfolding refuse
on_unescaped f front last =
    if last == 0x7E
    then ok (true, record f { state = full; buffer = front })
    else if last == 0x7D
    then ok (true, record f { state = escaped; bytes_remaining = 1; buffer = front })
    else if ltb (length f.buffer) mtu
    then ok (true, record f { bytes_remaining = 1 })
    else refuse f

-- The end of the escaped case, once the received byte is replaced.
keep_escaped : GatewayAccessFrameEscaped → Result (Bool × GatewayAccessFrameEscaped)
unfolding refuse
keep_escaped f =
    if leb mtu (length f.buffer) then refuse f else ok (true, record f { state = unescaped })

on_escaped : GatewayAccessFrameEscaped → Bytes → ℕ → Result (Bool × GatewayAccessFrameEscaped)
unfolding keep_escaped refuse
on_escaped f front last =
    if last == 0x5E
    then keep_escaped (record f { bytes_remaining = 1; buffer = front ++ 0x7E ∷ [] })
    else if last == 0x5D
    then keep_escaped (record f { bytes_remaining = 1; buffer = front ++ 0x7D ∷ [] })
    else refuse f

pub dispatch :
    Deserialization
    → GatewayAccessFrameEscaped
    → Bytes × ℕ
    → Result (Bool × GatewayAccessFrameEscaped)
unfolding on_framestart on_unescaped on_escaped
dispatch framestart f (front, last) = on_framestart f front last
dispatch unescaped f (front, last) = on_unescaped f front last
dispatch escaped f (front, last) = on_escaped f front last
dispatch error f _ = fault assertion_failed
dispatch full f _ = fault assertion_failed

unfoldable pub deserialize : GatewayAccessFrameEscaped → Result (Bool × GatewayAccessFrameEscaped)
unfolding split_last dispatch
deserialize f = do parts ← or_fault out_of_range (split_last f.buffer); dispatch f.state f parts

-- The members of the base class `Frame`, and the virtual `Deserialize`.
abbrev pub escaped_class : FrameClass GatewayAccessFrameEscaped
escaped_class = record {
  bytes_remaining = λ f. f.bytes_remaining;
  buffer = λ f. f.buffer;
  set_members = λ n bytes f. record f { bytes_remaining = n; buffer = bytes };
  deserialize = deserialize;
}
