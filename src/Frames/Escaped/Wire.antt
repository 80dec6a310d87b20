-- ===== src/Frames/Escaped/Wire.antt =====
-- GatewayAccessFrameEscaped.h: the bytes that `Serialize` writes, in closed form.
use snet_gateway.Frames.Escaped.{full}
use snet_gateway.Prelude.{
  ℕ, ◌+◌, ◌<◌, ◌≡◌, ◌≢◌, sym, ◌∙◌, [], ◌∷◌, ◌++◌, append_assoc, append-nil, Bytes, arith, length,
  length-append, length_snoc, All, All-append, lt→ltb,
}
use snet_gateway.Prelude.Result.{ok, ◌>>=◌}
use snet_gateway.Frames.Escaped.{
  GatewayAccessFrameEscaped, mtu, create, serialize, reserved_size, nbr_of_bytes_to_escape, escape,
  append_escaped,
}

-- The escaped payload.
unfoldable pub escape_all : Bytes → Bytes
escape_all [] = []
escape_all (b ∷ bs) = escape b ++ escape_all bs

append_escaped_lem : (out bs : Bytes) → append_escaped out bs ≡ out ++ escape_all bs
unfolding append_escaped escape_all
append_escaped_lem out [] = sym (append-nil out)
append_escaped_lem out (b ∷ bs) =
    append_escaped_lem (out ++ escape b) bs ∙ append_assoc out (escape b) (escape_all bs)

-- A frame on the wire: the escaped payload between two delimiters.
abbrev pub wire : Bytes → Bytes
wire p = 0x7E ∷ (escape_all p ++ 0x7E ∷ [])

pub serialize-create : (p : Bytes) → length p < mtu → (create p >>= serialize) ≡ ok (wire p)
unfolding create serialize
serialize-create p h = rw (lt→ltb _ _ h) (rw (append_escaped_lem (0x7E ∷ []) p))

pub serialize-finished :
    (p : Bytes) → serialize (record { state = full; bytes_remaining = 0; buffer = p }) ≡ ok (wire p)
unfolding serialize
serialize-finished p = rw (append_escaped_lem (0x7E ∷ []) p)

nbr-length :
    (n : ℕ) (bs : Bytes) → length bs + nbr_of_bytes_to_escape n bs ≡ n + length (escape_all bs)
unfolding nbr_of_bytes_to_escape escape_all escape
nbr-length n [] = omega arith
nbr-length n (b ∷ bs) =
    ground (arith, nbr-length n bs, nbr-length (n + 1) bs, length-append (escape b) (escape_all bs))

-- The memory that `Serialize` reserves is what the frame takes: the vector never grows.
pub reserved_size-serialize :
    (f : GatewayAccessFrameEscaped) (bs : Bytes) → serialize f ≡ ok bs → reserved_size f ≡ length bs
unfolding reserved_size serialize
reserved_size-serialize f bs h = ground (
  arith,
  append_escaped_lem (0x7E ∷ []) f.buffer,
  length_snoc (0x7E ∷ escape_all f.buffer) 0x7E,
  nbr-length 2 f.buffer,
)

abbrev IsNotDelimiter : ℕ → Type 0
IsNotDelimiter b = b ≢ 0x7E

escape-All : (b : ℕ) → All IsNotDelimiter (escape b)
unfolding escape
escape-All b = ground arith

-- No delimiter stands inside a frame.
pub escape_all-All : (p : Bytes) → All (λ b. b ≢ 0x7E) (escape_all p)
unfolding escape_all
escape_all-All [] = tt
escape_all-All (b ∷ bs) = All-append _ (escape b) (escape_all bs) (escape-All b) (escape_all-All bs)
